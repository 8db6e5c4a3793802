-- ===== src/Git/Store/Sweep.antt =====
-- plugins/git/store.go: which worktrees a sweep stamps, and what it reports.
use supergraph.Common.{
  ℕ, ◌≡◌, refl, ap, sym, ◌∙◌, inl, inr, Bool, true, false, ◌&&◌, ◌||◌, Option, none, some, List, [],
  ◌∷◌, bytes_eq, ◌==◌, if◌then◌else◌, contains, is_none, arith, Bool-cases, beq_sym, beq_refl,
}
use mathlib.Core.Option
use supergraph.Common.Dict.{lookup, update_all, lookup-update_all}
use supergraph.Common.Bytes.{Text}
use supergraph.Git.Store.{
  WorktreeRow, Tables, Driver, is_gone, gone_keys, stamp, stamp_row, stamp_all,
  mark_worktrees_stale_for_repo, stamped,
}

-- One row for each key, as the primary key demands.
abbrev pub IsKeyed : List (Text × WorktreeRow) → Type 0
IsKeyed [] = Unit
IsKeyed ((k, r) ∷ m) = (lookup k m ≡ none) × IsKeyed m

abbrev pub row_is : (WorktreeRow → Bool) → Option WorktreeRow → Bool
row_is p none = false
row_is p (some r) = p r

contains-gone_keys :
    (repo_key : Text) (keep : List Text) (m : List (Text × WorktreeRow)) (k : Text)
    → IsKeyed m
    → contains (gone_keys repo_key keep m) k ≡ row_is (is_gone repo_key keep k) (lookup k m)
unfolding gone_keys contains lookup
contains-gone_keys repo_key keep [] k h = refl
contains-gone_keys repo_key keep ((j, r) ∷ m) k h =
    ground (arith, contains-gone_keys repo_key keep m k h.1, bytes_eq.same_iff j k, h.0)

abbrev stamp_if : Bool → ℕ → WorktreeRow → WorktreeRow
stamp_if b now r = if b && is_none r.stale_since then record r { stale_since = some now } else r

map_stamps :
    (b c : Bool) (now : ℕ) (o : Option WorktreeRow)
    → Option.map (stamp_if b now) (Option.map (stamp_if c now) o)
      ≡ Option.map (stamp_if (c || b) now) o
map_stamps b c now none = refl
map_stamps b false now (some r) = refl
map_stamps false true now (some r) = refl
map_stamps true true now (some r) =
    ap some
      (elim (Bool-cases (is_none r.stale_since)) [ inl e ↦ rw e refl | inr e ↦ rw e (rw e refl) ])

map_same : (now : ℕ) (o : Option WorktreeRow) → o ≡ Option.map (stamp_if false now) o
map_same now none = refl
map_same now (some r) = refl

lookup-stamp :
    (key : Text) (now : ℕ) (t : Tables) (k : Text)
    → lookup k (stamp key now t).git_worktrees
      ≡ Option.map (stamp_if (k == key) now) (lookup k t.git_worktrees)
unfolding stamp
lookup-stamp key now t k = lookup-update_all (stamp_row key now) k t.git_worktrees

contains-cons : (x k : Text) (xs : List Text) → contains (x ∷ xs) k ≡ (k == x || contains xs k)
unfolding contains
contains-cons x k xs = ground (arith, beq_sym x k)

lookup-stamp_all :
    (d : Driver) (ks : List Text) (now : ℕ) (t : Tables) (k : Text)
    → ((j : Text) → d.stamp_fails j ≡ false)
    → lookup k (stamp_all d ks now t).0.git_worktrees
      ≡ Option.map (stamp_if (contains ks k) now) (lookup k t.git_worktrees)
unfolding stamp_all
lookup-stamp_all d [] now t k calm = unfold contains in map_same now (lookup k t.git_worktrees)
lookup-stamp_all d (key ∷ ks) now t k calm = rw (calm key) (
    lookup-stamp_all d ks now (stamp key now t) k calm
    ∙ ap (Option.map (stamp_if (contains ks k) now)) (lookup-stamp key now t k)
    ∙ map_stamps (contains ks k) (k == key) now (lookup k t.git_worktrees)
    ∙ ap (λ b. Option.map (stamp_if b now) (lookup k t.git_worktrees))
        (sym (contains-cons key k ks)))

stamp_all_done :
    (d : Driver) (ks : List Text) (now : ℕ) (t : Tables)
    → ((j : Text) → d.stamp_fails j ≡ false)
    → (stamp_all d ks now t).1 ≡ true
unfolding stamp_all
stamp_all_done d [] now t calm = refl
stamp_all_done d (k ∷ ks) now t calm = rw (calm k) (stamp_all_done d ks now (stamp k now t) calm)

-- What a sweep makes of one row.
abbrev pub swept_row : Text → List Text → ℕ → Text → WorktreeRow → WorktreeRow
swept_row repo_key keep now k r =
    if is_gone repo_key keep k r then record r { stale_since = some now } else r

sweep_of :
    (repo_key : Text) (keep : List Text) (now : ℕ) (k : Text) (o : Option WorktreeRow)
    → Option.map (stamp_if (row_is (is_gone repo_key keep k) o) now) o
      ≡ Option.map (swept_row repo_key keep now k) o
sweep_of repo_key keep now k none = refl
sweep_of repo_key keep now k (some r) = ap some (ground arith)

stamped_done :
    (gone : List Text) (p : Tables × Bool) → p.1 ≡ true → stamped gone p ≡ (p.0, some gone)
stamped_done gone (t, true) e = refl
stamped_done gone (t, false) e = absurd (ground arith)

sweep_done :
    (d : Driver) (repo_key : Text) (keep : List Text) (now : ℕ) (t : Tables)
    → d.select_live_fails repo_key ≡ false
    → ((j : Text) → d.stamp_fails j ≡ false)
    → mark_worktrees_stale_for_repo d repo_key keep now t ≡ (
      (stamp_all d (gone_keys repo_key keep t.git_worktrees) now t).0,
      some (gone_keys repo_key keep t.git_worktrees),
    )
unfolding mark_worktrees_stale_for_repo
sweep_done d repo_key keep now t select calm =
    let gone = gone_keys repo_key keep t.git_worktrees in
    rw select (stamped_done gone (stamp_all d gone now t) (stamp_all_done d gone now t calm))

-- With a driver that fails at none of its statements, a sweep reports a key exactly if its row is of
-- the repository, is not stale and is not kept; it stamps those rows with the time and leaves every
-- other row, of this repository or of another, as it is. The hypothesis is the primary key.
pub sweep_exact :
    (d : Driver) (repo_key : Text) (keep : List Text) (now : ℕ) (t : Tables) (k : Text)
    → IsKeyed t.git_worktrees
    → d.select_live_fails repo_key ≡ false
    → ((j : Text) → d.stamp_fails j ≡ false)
    → let out = mark_worktrees_stale_for_repo d repo_key keep now t in
      ((gone : List Text) × (out.1 ≡ some gone)
        × (contains gone k ≡ row_is (is_gone repo_key keep k) (lookup k t.git_worktrees)))
      × (lookup k out.0.git_worktrees
          ≡ Option.map (swept_row repo_key keep now k) (lookup k t.git_worktrees))
sweep_exact d repo_key keep now t k keyed select calm =
    let gone = gone_keys repo_key keep t.git_worktrees in
    let reported = contains-gone_keys repo_key keep t.git_worktrees k keyed in
    rw (sweep_done d repo_key keep now t select calm) (
      (gone, refl, reported),
      lookup-stamp_all d gone now t k calm
          ∙ ap (λ b. Option.map (stamp_if b now) (lookup k t.git_worktrees)) reported
          ∙ sweep_of repo_key keep now k (lookup k t.git_worktrees),
    )

update_all-IsKeyed :
    (f : Text → WorktreeRow → WorktreeRow) (m : List (Text × WorktreeRow))
    → IsKeyed m
    → IsKeyed (update_all f m)
unfolding update_all
update_all-IsKeyed f [] h = h
update_all-IsKeyed f ((k, r) ∷ m) (h, hs) =
    (lookup-update_all f k m ∙ ap (Option.map (f k)) h, update_all-IsKeyed f m hs)

stamp-IsKeyed :
    (key : Text) (now : ℕ) (t : Tables)
    → IsKeyed t.git_worktrees
    → IsKeyed (stamp key now t).git_worktrees
unfolding stamp
stamp-IsKeyed key now t h = update_all-IsKeyed (stamp_row key now) t.git_worktrees h

stamped_is_not_gone :
    (repo_key : Text) (keep : List Text) (k : Text) (now : ℕ) (r : WorktreeRow)
    → is_gone repo_key keep k (stamp_if true now r) ≡ false
stamped_is_not_gone repo_key keep k now r = elim (Bool-cases (is_none r.stale_since)) [
  | inl e ↦ rw e (ground arith)
  | inr e ↦ rw e (ground arith)
]

-- A sweep that stamps one row and fails at the next reports no key at all, and no sweep of the rows it
-- leaves, for any repository and any keys to keep, finds the row that was stamped. The hypotheses are
-- the primary key and the outcomes of the two statements.
failed_sweep_loses_removal :
    (d : Driver) (repo_key : Text) (keep : List Text) (now : ℕ) (t : Tables) (k j : Text)
    (rest : List Text) (r : WorktreeRow)
    → IsKeyed t.git_worktrees
    → d.select_live_fails repo_key ≡ false
    → gone_keys repo_key keep t.git_worktrees ≡ k ∷ j ∷ rest
    → lookup k t.git_worktrees ≡ some r
    → d.stamp_fails k ≡ false
    → d.stamp_fails j ≡ true
    → (mark_worktrees_stale_for_repo d repo_key keep now t ≡ (stamp k now t, none))
      × ((later : Text) (kept : List Text)
          → contains (gone_keys later kept (stamp k now t).git_worktrees) k ≡ false)
unfolding mark_worktrees_stale_for_repo stamp_all
failed_sweep_loses_removal d repo_key keep now t k j rest r keyed select gone here ok bad = (
  rw (select, gone, ok, bad) refl,
  λ later kept.
      contains-gone_keys later kept (stamp k now t).git_worktrees k (stamp-IsKeyed k now t keyed)
      ∙ ap (row_is (is_gone later kept k)) (
          lookup-stamp k now t k
          ∙ ap (Option.map (stamp_if (k == k) now)) here
          ∙ ap (λ b. some (stamp_if b now r)) (beq_refl k))
      ∙ stamped_is_not_gone later kept k now r,
)
