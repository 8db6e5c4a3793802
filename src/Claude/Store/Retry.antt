-- ===== src/Claude/Store/Retry.antt =====
-- A fold that comes twice, for plugins/claude/store.go.
use supergraph.Common.{
  ℕ, ◌≡◌, refl, String, string_eq, true, false, none, some, List, [], ◌∷◌, ◌++◌, arith,
  if◌then◌else◌, Bool-cases, inl, inr, beq_refl, Fault, fails_at,
}
use supergraph.Claude.Redact.{FoldInput}
use supergraph.Claude.Rows.{FoldKey, Tables, ok, failed}
use supergraph.Claude.Store.{has_key, key_of, apply_fold}

has_key-append : (k : FoldKey) (ks : List FoldKey) → has_key k (ks ++ k ∷ []) ≡ true
unfolding has_key
has_key-append k [] = ground (arith, beq_refl k.sid, beq_refl k.event, beq_refl k.ts)
has_key-append k (j ∷ js) = ground (arith, has_key-append k js)

apply_fold_seen :
    (fi : FoldInput) (host : String) (now : ℕ) (s : Tables)
    → has_key (key_of fi) s.folds ≡ true
    → apply_fold none fi host now s ≡ (s, ok false)
unfolding apply_fold
apply_fold_seen fi host now s h = rw h

-- The table of folds after the statements that are not the first.
folds-apply_fold :
    (fault : Fault) (fi : FoldInput) (host : String) (now : ℕ) (s : Tables)
    → fails_at 0 fault ≡ false
    → (apply_fold fault fi host now s).0.folds
      ≡ (if has_key (key_of fi) s.folds then s.folds else s.folds ++ key_of fi ∷ [])
unfolding apply_fold
folds-apply_fold fault fi host now s h = ground (arith, h)

pub apply_fold-recorded :
    (fault : Fault) (fi : FoldInput) (host : String) (now : ℕ) (s : Tables)
    → fails_at 0 fault ≡ false
    → has_key (key_of fi) (apply_fold fault fi host now s).0.folds ≡ true
apply_fold-recorded fault fi host now s h = elim (Bool-cases (has_key (key_of fi) s.folds)) [
  | inl p ↦ rw (folds-apply_fold fault fi host now s h, p) p
  | inr p ↦ rw (folds-apply_fold fault fi host now s h, p) (has_key-append (key_of fi) s.folds)
]

-- Once the dedup row of a fold is written, whatever became of the rest of that call, the same fold
-- again changes nothing and reports that it was not applied.
pub apply_fold_again :
    (fault : Fault) (fi : FoldInput) (host host' : String) (now now' : ℕ) (s : Tables)
    → fails_at 0 fault ≡ false
    → apply_fold none fi host' now' (apply_fold fault fi host now s).0
      ≡ ((apply_fold fault fi host now s).0, ok false)
apply_fold_again fault fi host host' now now' s h =
    apply_fold_seen fi host' now' (apply_fold fault fi host now s).0
      (apply_fold-recorded fault fi host now s h)

-- A fold whose last statement fails is lost: the call reports the failure and leaves the sessions as
-- they were, and the same fold sent again is taken for a duplicate, so the sessions stay as they
-- were before the first attempt.
pub failed_fold_is_lost :
    (fi : FoldInput) (host : String) (now now' : ℕ) (s : Tables)
    → has_key (key_of fi) s.folds ≡ false
    → let t = (apply_fold (some 2) fi host now s).0 in
      ((apply_fold (some 2) fi host now s).1 ≡ failed)
      × ((apply_fold none fi host now' t).1 ≡ ok false)
      × ((apply_fold none fi host now' t).0.sessions ≡ s.sessions)
failed_fold_is_lost fi host now now' s h =
    let again = apply_fold_again (some 2) fi host host now now' s refl in
    (unfold apply_fold in rw h, rw again, rw again (unfold apply_fold in rw h))
