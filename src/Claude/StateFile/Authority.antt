-- ===== src/Claude/StateFile/Authority.antt =====
-- The state-file channel against the others, for plugins/claude/store.go and statefile.go.
use supergraph.Common.{
  Fault, fails_at, ℕ, ◌≡◌, refl, sym, ap, ◌∙◌, String, string_eq, Bool, true, false, Option, none,
  some, arith, ◌==◌, ◌&&◌, ◌||◌, not, if◌then◌else◌, Bool-cases, inl, inr,
}
use supergraph.Common.Dict.{lookup, lookup-insert}
use supergraph.Claude.Redact.{StateFile}
use supergraph.Claude.Rows.{calls_in, SessionRow, Tables, set_if}
use supergraph.Claude.Store.{has_fold}
use supergraph.Claude.StateFile.{
  file_row, same_file_fields, blank_row, reconcile_file, apply_state_file,
}

-- The row of the file's session after a call that the driver does not fail.
abbrev pub file_result : StateFile → String → Bool → String → ℕ → Option SessionRow → SessionRow
file_result sf title folded host now none = file_row (blank_row host now) sf title folded
file_result sf title folded host now (some cur) =
    if same_file_fields (file_row cur sf title folded) cur
    then cur
    else record (file_row cur sf title folded) { last_event_at = now }

lookup-reconcile_file :
    (fault : Fault) (sf : StateFile) (title : String) (folded : Bool) (host : String) (now : ℕ)
    (o : Option SessionRow) (s : Tables) (k : String)
    → fails_at 2 fault ≡ false
    → lookup sf.sid s.sessions ≡ o
    → lookup k (reconcile_file fault sf title folded host now o s).0.sessions
      ≡ (if sf.sid == k then some (file_result sf title folded host now o) else lookup k s.sessions)
lookup-reconcile_file fault sf title folded host now none s k w at =
    rw w (lookup-insert sf.sid k (file_row (blank_row host now) sf title folded) s.sessions)
lookup-reconcile_file fault sf title folded host now (some cur) s k w at =
    elim (Bool-cases (same_file_fields (file_row cur sf title folded) cur)) [
      | inl p ↦ rw (p, reconcile_file) (ground (arith, at, string_eq.same_iff sf.sid k))
      | inr p ↦ rw (p, w, reconcile_file) (lookup-insert sf.sid k _ s.sessions)
    ]

pub lookup-apply_state_file :
    (sf : StateFile) (title host : String) (now : ℕ) (s : Tables) (k : String)
    → lookup k (apply_state_file none sf title host now s).0.sessions ≡ (
        if sf.sid == k
        then some
            (file_result sf title (has_fold sf.sid s.folds) host now (lookup sf.sid s.sessions))
        else lookup k s.sessions)
unfolding apply_state_file
lookup-apply_state_file sf title host now s k =
    lookup-reconcile_file none sf title (has_fold sf.sid s.folds) host now
      (lookup sf.sid s.sessions) s k refl refl

state-file_result :
    (sf : StateFile) (title : String) (f : Bool) (host : String) (now : ℕ) (r : SessionRow)
    → (file_result sf title f host now (some r)).state
      ≡ (if f then r.state else set_if r.state sf.state)
unfolding file_row
state-file_result sf title f host now r =
    elim (Bool-cases (same_file_fields (file_row r sf title f) r)) [
      | inl p ↦
          rw (p, file_result)
            (ground (arith, p, string_eq.same_iff (file_row r sf title f).state r.state))
      | inr p ↦ rw (p, file_result)
    ]

pub folds-reconcile_file :
    (sf : StateFile) (title : String) (f : Bool) (host : String) (now : ℕ) (o : Option SessionRow)
    (s : Tables)
    → (reconcile_file none sf title f host now o s).0.folds ≡ s.folds
folds-reconcile_file sf title f host now none s = refl
folds-reconcile_file sf title f host now (some cur) s =
    elim (Bool-cases (same_file_fields (file_row cur sf title f) cur)) [
      | inl p ↦ rw (p, reconcile_file)
      | inr p ↦ rw (p, reconcile_file)
    ]

calls-file_result :
    (sf : StateFile) (title : String) (f : Bool) (host : String) (now : ℕ) (o : Option SessionRow)
    → (file_result sf title f host now o).tool_calls ≡ calls_in o
unfolding file_row
calls-file_result sf title f host now none = refl
calls-file_result sf title f host now (some cur) =
    elim (Bool-cases (same_file_fields (file_row cur sf title f) cur)) [
      | inl p ↦ rw (p, file_result)
      | inr p ↦ rw (p, file_result)
    ]

pub folds-apply_state_file :
    (sf : StateFile) (title host : String) (now : ℕ) (s : Tables)
    → (apply_state_file none sf title host now s).0.folds ≡ s.folds
unfolding apply_state_file
folds-apply_state_file sf title host now s =
    folds-reconcile_file sf title (has_fold sf.sid s.folds) host now (lookup sf.sid s.sessions) s

-- A state file changes no counter: a row that it creates has none.
pub calls-apply_state_file :
    (sf : StateFile) (title host : String) (now : ℕ) (s : Tables) (k : String)
    → calls_in (lookup k (apply_state_file none sf title host now s).0.sessions)
      ≡ calls_in (lookup k s.sessions)
calls-apply_state_file sf title host now s k =
    ap calls_in (lookup-apply_state_file sf title host now s k) ∙ elim (Bool-cases (sf.sid == k)) [
      | inl e ↦
          rw (e, sym ((string_eq.same_iff sf.sid k).0 e))
            (calls-file_result sf title (has_fold sf.sid s.folds) host now
              (lookup sf.sid s.sessions))
      | inr e ↦ rw e
    ]

-- The driver fails before the write, or at it.
apply_state_file_unwritten :
    (fault : Fault) (sf : StateFile) (title host : String) (now : ℕ) (s : Tables)
    → (fails_at 0 fault || fails_at 2 fault) ≡ true
    → (apply_state_file fault sf title host now s).0 ≡ s
unfolding apply_state_file
apply_state_file_unwritten fault sf title host now s h = elim (Bool-cases (fails_at 0 fault)) [
  | inl p ↦ rw p refl
  | inr p ↦
      let w : fails_at 2 fault ≡ true = ground (arith, h, p) in
      rw p
        (unwritten w (not (fails_at 1 fault) && has_fold sf.sid s.folds) (lookup sf.sid s.sessions))
]
  where
    unwritten :
        fails_at 2 fault ≡ true
        → (f : Bool) (o : Option SessionRow) → (reconcile_file fault sf title f host now o s).0 ≡ s
    unwritten w f none = rw w refl
    unwritten w f (some cur) = elim (Bool-cases (same_file_fields (file_row cur sf title f) cur)) [
      | inl p ↦ rw (p, reconcile_file)
      | inr p ↦ rw (p, w, reconcile_file)
    ]

lookup-written :
    (fault : Fault) (sf : StateFile) (title host : String) (now : ℕ) (s : Tables) (k : String)
    → fails_at 0 fault ≡ false
    → fails_at 2 fault ≡ false
    → lookup k (apply_state_file fault sf title host now s).0.sessions ≡ (
        if sf.sid == k
        then some (
            file_result sf title
              (not (fails_at 1 fault) && has_fold sf.sid s.folds)
              host
              now
              (lookup sf.sid s.sessions))
        else lookup k s.sessions)
unfolding apply_state_file
lookup-written fault sf title host now s k p w = rw p (
    lookup-reconcile_file fault sf title (not (fails_at 1 fault) && has_fold sf.sid s.folds) host
      now (lookup sf.sid s.sessions) s k w refl)

read_fold_works :
    (fault : Fault) → (fails_at 0 fault || fails_at 2 fault) ≡ true → fails_at 1 fault ≡ false
read_fold_works none h = refl
read_fold_works (some k) h = ground (arith, h)

-- A session that is there and was ever folded stays, and keeps its tool counter, whatever state file
-- comes, for itself or for another session, and wherever the driver fails. It keeps its state too,
-- but for its own file where the read of the folds is the statement that fails: then it has the
-- state of the file, where that is not empty.
pub fold_has_authority :
    (fault : Fault) (sf : StateFile) (title host : String) (now : ℕ) (s : Tables) (r : SessionRow)
    (sid : String)
    → lookup sid s.sessions ≡ some r
    → has_fold sid s.folds ≡ true
    → (r' : SessionRow) × (lookup sid (apply_state_file fault sf title host now s).0.sessions
        ≡ some r')
      × (r'.tool_calls ≡ r.tool_calls)
      × (r'.state
          ≡ (if fails_at 1 fault && sf.sid == sid then set_if r.state sf.state else r.state))
fold_has_authority fault sf title host now s r sid at folded =
    elim (Bool-cases (fails_at 0 fault || fails_at 2 fault)) [
      | inl u ↦ (
        r,
        rw (apply_state_file_unwritten fault sf title host now s u) at,
        refl,
        rw (read_fold_works fault u) refl,
      )
      | inr u ↦
          let p : fails_at 0 fault ≡ false = ground (arith, u) in
          let w : fails_at 2 fault ≡ false = ground (arith, u) in
          elim (Bool-cases (sf.sid == sid)) [
            | inl e ↦
                let same : sf.sid ≡ sid = (string_eq.same_iff sf.sid sid).0 e in
                let f = not (fails_at 1 fault) in
                (
                  file_result sf title (f && true) host now (some r),
                  rw (lookup-written fault sf title host now s sid p w, e, same, at, folded),
                  calls-file_result sf title (f && true) host now (some r),
                  state-file_result sf title (f && true) host now r ∙ ground (arith, e),
                )
            | inr e ↦ (
              r,
              rw (lookup-written fault sf title host now s sid p w, e) at,
              refl,
              ground (arith, e),
            )
          ]
    ]
