-- ===== src/Claude/Sweep/Exact.antt =====
-- What prune and staleScan do to every session, for plugins/claude/store.go.
use mathlib.Core.Option
use supergraph.Common.{
  ℕ, zero, suc, ◌≢◌, ◌<◌, ◌≤◌, ◌≡◌, refl, sym, ap, ◌∙◌, String, string_eq, Bool, true, false,
  Option, none, some, List, [], ◌∷◌, arith, ◌==◌, if◌then◌else◌, beq_sym, contains, ltb, is_some,
}
use supergraph.Common.Int.{ℤ, pos, negsuc}
use supergraph.Common.Dict.{lookup, remove, lookup-remove, lookup-update_all}
use supergraph.Claude.Rows.{SessionRow, is_zero, FoldKey, Tables}
use supergraph.Claude.Store.{has_fold}
use supergraph.Claude.Sweep.{
  sids_where, old_sids, drop_folds, delete_sids, prune, is_gone, dead_sids, stamp_stale, mark_dead,
  stale_scan,
}

-- The sessions have one row for each sid, as the primary key demands.
abbrev pub IsKeyed : List (String × SessionRow) → Type 0
IsKeyed [] = Unit
IsKeyed ((k, r) ∷ m) = (is_some (lookup k m) ≡ false) × IsKeyed m

-- The test of a session's row, false for a session that is not there.
abbrev pub row_is : (SessionRow → Bool) → Option SessionRow → Bool
row_is p none = false
row_is p (some r) = p r

contains-sids_where :
    (p : SessionRow → Bool) (m : List (String × SessionRow)) (k : String)
    → IsKeyed m
    → contains (sids_where p m) k ≡ row_is p (lookup k m)
unfolding sids_where contains lookup
contains-sids_where p [] k h = refl
contains-sids_where p ((j, r) ∷ m) k h =
    ground (arith, contains-sids_where p m k h.1, string_eq.same_iff j k, h.0)

abbrev pub stamp_if : Bool → ℕ → SessionRow → SessionRow
stamp_if b now r = if b then record r { stale_since = some now } else r

map_stamps :
    (b c : Bool) (now : ℕ) (o : Option SessionRow)
    → Option.map (stamp_if b now) (Option.map (stamp_if c now) o)
      ≡ Option.map (stamp_if (if c then true else b) now) o
map_stamps b c now none = refl
map_stamps true true now (some r) = refl
map_stamps false true now (some r) = refl
map_stamps b false now (some r) = refl

map_same : (now : ℕ) (o : Option SessionRow) → o ≡ Option.map (stamp_if false now) o
map_same now none = refl
map_same now (some r) = refl

contains-cons :
    (x k : String) (xs : List String)
    → contains (x ∷ xs) k ≡ (if k == x then true else contains xs k)
unfolding contains
contains-cons x k xs = ground (arith, beq_sym x k)

pub lookup-mark_dead :
    (sids : List String) (now : ℕ) (m : List (String × SessionRow)) (k : String)
    → lookup k (mark_dead sids now m) ≡ Option.map (stamp_if (contains sids k) now) (lookup k m)
unfolding mark_dead
lookup-mark_dead [] now m k = unfold contains in map_same now (lookup k m)
lookup-mark_dead (sid ∷ sids) now m k =
    lookup-mark_dead sids now (stamp_stale sid now m) k
    ∙ ap (Option.map (stamp_if (contains sids k) now))
        (lookup-update_all (λ j. stamp_if (j == sid) now) k m)
    ∙ map_stamps (contains sids k) (k == sid) now (lookup k m)
    ∙ ap (λ b. Option.map (stamp_if b now) (lookup k m)) (sym (contains-cons sid k sids))

pub lookup-delete_sids :
    (sids : List String) (s : Tables) (k : String)
    → lookup k (delete_sids sids s).sessions
      ≡ (if contains sids k then none else lookup k s.sessions)
unfolding delete_sids contains
lookup-delete_sids [] s k = refl
lookup-delete_sids (sid ∷ sids) s k = ground (
  arith,
  lookup-delete_sids sids
      (record { sessions = remove sid s.sessions; folds = drop_folds sid s.folds }) k,
  lookup-remove sid k s.sessions,
)

has_fold-drop_folds :
    (sid k : String) (fs : List FoldKey)
    → has_fold k (drop_folds sid fs) ≡ (if sid == k then false else has_fold k fs)
unfolding has_fold
has_fold-drop_folds sid k [] = ground arith
has_fold-drop_folds sid k (f ∷ fs) = ground (
  arith,
  has_fold-drop_folds sid k fs,
  string_eq.same_iff f.sid sid,
  string_eq.same_iff f.sid k,
  string_eq.same_iff sid k,
)

has_fold-delete_sids :
    (sids : List String) (s : Tables) (k : String)
    → has_fold k (delete_sids sids s).folds
      ≡ (if contains sids k then false else has_fold k s.folds)
unfolding delete_sids contains
has_fold-delete_sids [] s k = refl
has_fold-delete_sids (sid ∷ sids) s k = ground (
  arith,
  has_fold-delete_sids sids
      (record { sessions = remove sid s.sessions; folds = drop_folds sid s.folds }) k,
  has_fold-drop_folds sid k s.folds,
)

-- The process of a running session is gone.
pub record IsGone (alive : ℤ → Bool) (r : SessionRow) : Type 0 where
  pub has_pid : r.pid ≢ pos 0
  pub not_ended : r.state ≢ "ended"
  pub not_stale : r.stale_since ≡ none
  pub dead : alive r.pid ≡ false

is_zero_lem : (z : ℤ) → is_zero z ≡ false → z ≢ pos 0
is_zero_lem (pos zero) h = cc
is_zero_lem (pos (suc n)) h = λ e. cc
is_zero_lem (negsuc n) h = λ e. cc

is_zero_of_ne : (z : ℤ) → z ≢ pos 0 → is_zero z ≡ false
is_zero_of_ne (pos zero) h = absurd (h refl)
is_zero_of_ne (pos (suc n)) h = refl
is_zero_of_ne (negsuc n) h = refl

is_gone-IsGone : (alive : ℤ → Bool) (r : SessionRow) → is_gone alive r ≡ true → IsGone alive r
is_gone-IsGone alive r h = record {
  has_pid = is_zero_lem r.pid (ground arith);
  not_ended = λ e. ground (arith, string_eq.same_iff r.state "ended");
  not_stale = ground arith;
  dead = ground arith;
}

IsGone-is_gone : (alive : ℤ → Bool) (r : SessionRow) → IsGone alive r → is_gone alive r ≡ true
IsGone-is_gone alive r g =
    ground (arith, is_zero_of_ne r.pid g.has_pid, string_eq.same_iff r.state "ended", g.not_ended)

-- staleScan stamps a session and returns its sid if it has a process id, has not ended, carries no
-- stamp and its process is not alive; it leaves every other session as it is and does not return
-- its sid. The hypothesis is the primary key.
pub stale_scan_exact :
    (now : ℕ) (alive : ℤ → Bool) (s : Tables) (k : String) (r : SessionRow)
    → IsKeyed s.sessions
    → lookup k s.sessions ≡ some r
    → (IsGone alive r
        → (lookup k (stale_scan now alive s).0.sessions
            ≡ some (record r { stale_since = some now }))
          × (contains (stale_scan now alive s).1 k ≡ true))
      × (¬ IsGone alive r
          → (lookup k (stale_scan now alive s).0.sessions ≡ some r)
            × (contains (stale_scan now alive s).1 k ≡ false))
unfolding stale_scan
stale_scan_exact now alive s k r h at =
    let dead = contains-sids_where (is_gone alive) s.sessions k h in
    let marked =
      lookup-mark_dead (dead_sids alive s.sessions) now s.sessions k
      ∙ ap (λ b. Option.map (stamp_if b now) (lookup k s.sessions)) dead in
    (
      λ g.
          let yes_gone = IsGone-is_gone alive r g in
          (marked ∙ rw at (rw yes_gone), dead ∙ rw at yes_gone),
      λ n.
          let not_gone : is_gone alive r ≡ false =
            ground (arith, λ (e : is_gone alive r ≡ true). n (is_gone-IsGone alive r e)) in
          (marked ∙ rw at (rw not_gone), dead ∙ rw at not_gone),
    )

-- prune removes a session and all of its folds if its last event is older than the cutoff, and
-- otherwise leaves its row, and whether it was folded, as they are. The hypothesis is the primary
-- key.
pub prune_exact :
    (cutoff : ℕ) (s : Tables) (k : String) (r : SessionRow)
    → IsKeyed s.sessions
    → lookup k s.sessions ≡ some r
    → (r.last_event_at < cutoff
        → (lookup k (prune cutoff s).sessions ≡ none) × (has_fold k (prune cutoff s).folds ≡ false))
      × (cutoff ≤ r.last_event_at
          → (lookup k (prune cutoff s).sessions ≡ some r)
            × (has_fold k (prune cutoff s).folds ≡ has_fold k s.folds))
unfolding prune
prune_exact cutoff s k r h at =
    let gone = contains-sids_where (λ r. ltb r.last_event_at cutoff) s.sessions k h in
    let row = lookup-delete_sids (old_sids cutoff s.sessions) s k in
    let folds = has_fold-delete_sids (old_sids cutoff s.sessions) s k in
    (
      λ lt. (ground (arith, gone, row, at), ground (arith, gone, folds, at)),
      λ le. (ground (arith, gone, row, at), ground (arith, gone, folds, at)),
    )
