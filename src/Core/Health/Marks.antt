-- ===== src/Core/Health/Marks.antt =====
-- A stale mark over further calls, and the order of the rows, for core/health.go.
use supergraph.Common.{
  ℕ, String, ◌≡◌, Bool, true, false, some, List, [], ◌∷◌, ◌++◌, arith, ◌==◌, string_eq, beq_refl,
  if◌then◌else◌, inl,
}
use supergraph.Common.Int.{ℤ}
use supergraph.Common.Order.{find_by, IsSortedBy, sort_by-IsSortedBy}
use supergraph.Core.Health.{stale, HealthStatus, HealthAggregator, snapshot}
use supergraph.Core.Health.Freshness.{
  Call, starting_of, event_of, stale_of, cursor_of, is_down, run, state-snapshot,
}

abbrev pub never_starts : String → List Call → Bool
never_starts n [] = true
never_starts n (starting_of k ∷ cs) = let rest = never_starts n cs in if k == n then false else rest
never_starts n (_ ∷ cs) = never_starts n cs

is_down-append :
    (n : String) (newer older : List Call)
    → never_starts n newer ≡ true
    → is_down n older ≡ true
    → is_down n (newer ++ older) ≡ true
is_down-append n [] older q d = d
is_down-append n (starting_of k ∷ cs) older q d = ground (arith, is_down-append n cs older)
is_down-append n (event_of k t ∷ cs) older q d = is_down-append n cs older q d
is_down-append n (stale_of k ∷ cs) older q d = ground (arith, is_down-append n cs older)
is_down-append n (cursor_of k t ∷ cs) older q d = is_down-append n cs older q d

-- Once a plugin is marked stale, no calls that never mark it as starting make it anything else.
stale_until_restart :
    (call : ℕ → String) (now : ℕ) (z : ℤ) (n : String) (newer older : List Call) (hs : HealthStatus)
    → never_starts n newer ≡ true
    → find_by
        (λ (s : HealthStatus). s.plugin)
        n
        (snapshot call now (run z (newer ++ stale_of n ∷ older)))
      ≡ some hs
    → hs.state ≡ stale
stale_until_restart call now z n newer older hs quiet found =
    (state-snapshot call now z n (newer ++ stale_of n ∷ older) hs found).0.1
      (inl (is_down-append n newer (stale_of n ∷ older) quiet (rw (beq_refl n))))

-- The rows of a snapshot are in ascending order of the plugins' names.
snapshot-IsSortedBy :
    (call : ℕ → String) (now : ℕ) (h : HealthAggregator)
    → IsSortedBy (λ (hs : HealthStatus). hs.plugin) (snapshot call now h)
unfolding snapshot
snapshot-IsSortedBy call now h = sort_by-IsSortedBy (λ (hs : HealthStatus). hs.plugin) _
