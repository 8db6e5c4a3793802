-- ===== src/Claude/StateFile/Rescan.antt =====
-- A state file that is read again, for plugins/claude/store.go and statefile.go.
use supergraph.Common.{
  ℕ, ◌≡◌, refl, ap, ◌∙◌, String, string_eq, Bool, true, false, Option, none, some, arith, ◌==◌,
  ◌&&◌, if◌then◌else◌, Bool-cases, inl, inr, beq_refl,
}
use supergraph.Common.Int.{ℤ, pos, negsuc}
use supergraph.Common.Dict.{lookup}
use supergraph.Claude.Redact.{StateFile}
use supergraph.Claude.Rows.{SessionRow, Tables, set_if, set_nonzero, ok}
use supergraph.Claude.Store.{has_fold}
use supergraph.Claude.StateFile.{
  file_row, same_file_fields, eq_ℤ, blank_row, reconcile_file, apply_state_file, trunc_runes,
  mission_max_runes, last_response_max_runes,
}
use supergraph.Claude.StateFile.Authority.{
  file_result, lookup-apply_state_file, folds-reconcile_file,
}

set_if_twice : (a b : String) → set_if (set_if a b) b ≡ set_if a b
set_if_twice a b = ground arith

set_nonzero_twice : (a b : ℤ) → set_nonzero (set_nonzero a b) b ≡ set_nonzero a b
set_nonzero_twice a b = ground arith

eq_ℤ_refl : (a : ℤ) → eq_ℤ a a ≡ true
eq_ℤ_refl (pos n) = ground arith
eq_ℤ_refl (negsuc n) = ground arith

same_twice : (a b : String) → (set_if (set_if a b) b == set_if a b) ≡ true
same_twice a b = ap (λ c. c == set_if a b) (set_if_twice a b) ∙ beq_refl (set_if a b)

same_twice_ℤ : (a b : ℤ) → eq_ℤ (set_nonzero (set_nonzero a b) b) (set_nonzero a b) ≡ true
same_twice_ℤ a b =
    ap (λ c. eq_ℤ c (set_nonzero a b)) (set_nonzero_twice a b) ∙ eq_ℤ_refl (set_nonzero a b)

all_seven :
    {a b c d e f g : Bool}
    → a ≡ true
    → b ≡ true
    → c ≡ true
    → d ≡ true
    → e ≡ true
    → f ≡ true
    → g ≡ true
    → (a && b && c && d && e && f && g) ≡ true
all_seven p q r s t u v = rw (p, q, r, s, t, u, v)

-- A row into which the file was put is not changed by putting it in again.
file_row_twice :
    (c : SessionRow) (n : ℕ) (sf : StateFile) (title : String) (f : Bool)
    → let r : SessionRow = record (file_row c sf title f) { last_event_at = n } in
      same_file_fields (file_row r sf title f) r ≡ true
unfolding file_row
file_row_twice c n sf title true =
    all_seven (same_twice c.cwd sf.cwd) (same_twice c.pane sf.pane) (beq_refl c.state)
      (same_twice c.mission (trunc_runes sf.first_prompt mission_max_runes))
      (same_twice c.last_response (trunc_runes sf.last_response last_response_max_runes))
      (same_twice c.pane_title title) (same_twice_ℤ c.pid sf.pid)
file_row_twice c n sf title false =
    all_seven (same_twice c.cwd sf.cwd) (same_twice c.pane sf.pane) (same_twice c.state sf.state)
      (same_twice c.mission (trunc_runes sf.first_prompt mission_max_runes))
      (same_twice c.last_response (trunc_runes sf.last_response last_response_max_runes))
      (same_twice c.pane_title title) (same_twice_ℤ c.pid sf.pid)

file_result_twice :
    (sf : StateFile) (title : String) (f : Bool) (host : String) (now : ℕ) (o : Option SessionRow)
    → let r = file_result sf title f host now o in same_file_fields (file_row r sf title f) r ≡ true
unfolding file_row
file_result_twice sf title f host now none = file_row_twice (blank_row host now) now sf title f
file_result_twice sf title f host now (some cur) =
    elim (Bool-cases (same_file_fields (file_row cur sf title f) cur)) [
      | inl p ↦ rw (p, file_result) p
      | inr p ↦ rw (p, file_result) (file_row_twice cur now sf title f)
    ]

again :
    (sf : StateFile) (title host : String) (now : ℕ) (t : Tables) (f : Bool) (r : SessionRow)
    → lookup sf.sid t.sessions ≡ some r
    → has_fold sf.sid t.folds ≡ f
    → same_file_fields (file_row r sf title f) r ≡ true
    → apply_state_file none sf title host now t ≡ (t, ok false)
unfolding apply_state_file
again sf title host now t f r at folded same = rw (at, folded, same, reconcile_file) refl

-- A state file that is read again with the same pane title, at any later time, changes nothing and
-- reports no change, so nothing is emitted for it.
rescan_is_silent :
    (sf : StateFile) (title host : String) (now now' : ℕ) (s : Tables)
    → apply_state_file none sf title host now' (apply_state_file none sf title host now s).0
      ≡ ((apply_state_file none sf title host now s).0, ok false)
rescan_is_silent sf title host now now' s =
    let t = (apply_state_file none sf title host now s).0 in
    let f = has_fold sf.sid s.folds in
    let r = file_result sf title f host now (lookup sf.sid s.sessions) in
    let at : lookup sf.sid t.sessions ≡ some r =
      lookup-apply_state_file sf title host now s sf.sid
      ∙ ap (λ b. if b then some r else lookup sf.sid s.sessions) (beq_refl sf.sid) in
    let kept : t.folds ≡ s.folds =
      unfold apply_state_file in
      folds-reconcile_file sf title f host now (lookup sf.sid s.sessions) s in
    again sf title host now' t f r at (ap (has_fold sf.sid) kept)
      (file_result_twice sf title f host now (lookup sf.sid s.sessions))
