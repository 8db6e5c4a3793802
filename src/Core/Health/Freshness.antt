-- ===== src/Core/Health/Freshness.antt =====
-- What the snapshot reports of a plugin, as a function of the calls that were made, for
-- core/health.go.
use mathlib.Core.Option
use supergraph.Common.{
  ℕ, String, ◌≡◌, refl, Bool, true, false, Option, none, some, List, [], ◌∷◌, map, arith, ◌==◌,
  string_eq, ◌⊎◌, ◌↔◌, if◌then◌else◌, Bool-cases, inl, inr, is_some, ap, ◌∙◌, or_else,
}
use supergraph.Common.Dict.{lookup, insert, lookup-insert}
use supergraph.Common.Int.{ℤ, sub_ℕ, ltb_ℤ}
use supergraph.Common.Order.{find_by, find_by-sort_by}
use supergraph.Core.Health.{
  starting, stale, HealthStatus, PluginHealth, HealthAggregator, new_health_aggregator, entry,
  zero_health, mark_starting, record_event, mark_stale, set_cursor_func, status_of, snapshot,
}

-- A call of the aggregator.
pub data Call : Type 0 where
  starting_of : String → Call
  event_of : String → ℕ → Call
  stale_of : String → Call
  cursor_of : String → ℕ → Call

unfoldable pub apply : HealthAggregator → Call → HealthAggregator
apply h (starting_of n) = mark_starting h n
apply h (event_of n t) = record_event h n t
apply h (stale_of n) = mark_stale h n
apply h (cursor_of n f) = set_cursor_func h n f

-- A history has its newest call first.
unfoldable pub run : ℤ → List Call → HealthAggregator
run threshold [] = new_health_aggregator threshold
run threshold (c ∷ older) = apply (run threshold older) c

abbrev name_of : Call → String
name_of (starting_of n) = n
name_of (event_of n t) = n
name_of (stale_of n) = n
name_of (cursor_of n f) = n

-- The newest event time, the newest cursor function and the newest verdict of a plugin.
abbrev pub last_event : String → List Call → Option ℕ
last_event n [] = none
last_event n (event_of k t ∷ older) =
    let rest = last_event n older in if k == n then some t else rest
last_event n (_ ∷ older) = last_event n older

abbrev pub last_cursor : String → List Call → Option ℕ
last_cursor n [] = none
last_cursor n (cursor_of k f ∷ older) =
    let rest = last_cursor n older in if k == n then some f else rest
last_cursor n (_ ∷ older) = last_cursor n older

abbrev pub is_down : String → List Call → Bool
is_down n [] = false
is_down n (starting_of k ∷ older) = let rest = is_down n older in if k == n then false else rest
is_down n (stale_of k ∷ older) = let rest = is_down n older in if k == n then true else rest
is_down n (_ ∷ older) = is_down n older

abbrev pub is_known : String → List Call → Bool
is_known n [] = false
is_known n (c ∷ older) = let rest = is_known n older in if name_of c == n then true else rest

-- The record that a history leaves for a plugin.
abbrev pub health_of : String → List Call → PluginHealth
health_of n cs = record {
  last_event_at = last_event n cs;
  cursor_fn = last_cursor n cs;
  forced_stale = is_down n cs;
}

-- A write of the record of `k`, seen at `n`.
entry-insert :
    (z : ℤ) (ps : List (String × PluginHealth)) (k n : String) (p : PluginHealth)
    → entry (record { threshold = z; plugins = insert k p ps }) n
      ≡ (if k == n then p else entry (record { threshold = z; plugins = ps }) n)
unfolding entry
entry-insert z ps k n p = ground (arith, lookup-insert k n p ps)

-- One call, seen at any plugin.
pub entry-mark_starting :
    (h : HealthAggregator) (k n : String)
    → entry (mark_starting h k) n
      ≡ (if k == n then record (entry h k) { forced_stale = false } else entry h n)
unfolding mark_starting
entry-mark_starting h k n = entry-insert h.threshold h.plugins k n _

pub entry-mark_stale :
    (h : HealthAggregator) (k n : String)
    → entry (mark_stale h k) n
      ≡ (if k == n then record (entry h k) { forced_stale = true } else entry h n)
unfolding mark_stale
entry-mark_stale h k n = entry-insert h.threshold h.plugins k n _

pub entry-record_event :
    (h : HealthAggregator) (k n : String) (t : ℕ)
    → entry (record_event h k t) n
      ≡ (if k == n then record (entry h k) { last_event_at = some t } else entry h n)
unfolding record_event
entry-record_event h k n t = entry-insert h.threshold h.plugins k n _

pub entry-set_cursor_func :
    (h : HealthAggregator) (k n : String) (f : ℕ)
    → entry (set_cursor_func h k f) n
      ≡ (if k == n then record (entry h k) { cursor_fn = some f } else entry h n)
unfolding set_cursor_func
entry-set_cursor_func h k n f = entry-insert h.threshold h.plugins k n _

-- A write that changes the record by `f`, and agrees with the specification at `k` and elsewhere.
write-run :
    (z : ℤ) (cs : List Call) (k n : String) (p q : PluginHealth)
    → (k ≡ n → p ≡ q)
    → ((k == n) ≡ false → entry (run z cs) n ≡ q)
    → entry (record (run z cs) { plugins = insert k p (run z cs).plugins }) n ≡ q
write-run z cs k n p q same other = elim (Bool-cases (k == n)) [
  | inl e ↦ rw (entry-insert _ _ k n p, e) (same ((string_eq.same_iff k n).0 e))
  | inr e ↦ rw (entry-insert _ _ k n p, e) (other e)
]

entry-run : (z : ℤ) (n : String) (cs : List Call) → entry (run z cs) n ≡ health_of n cs
unfolding run apply mark_starting record_event mark_stale set_cursor_func
entry-run z n [] = unfold new_health_aggregator entry lookup in refl
entry-run z n (starting_of k ∷ cs) =
    write-run z cs k n _ (health_of n (starting_of k ∷ cs))
      (λ e. ground (arith, entry-run z k cs, entry-run z n cs, string_eq.same_iff k n))
      (λ e. ground (arith, entry-run z n cs))
entry-run z n (event_of k t ∷ cs) =
    write-run z cs k n _ (health_of n (event_of k t ∷ cs))
      (λ e. ground (arith, entry-run z k cs, entry-run z n cs, string_eq.same_iff k n))
      (λ e. ground (arith, entry-run z n cs))
entry-run z n (stale_of k ∷ cs) =
    write-run z cs k n _ (health_of n (stale_of k ∷ cs))
      (λ e. ground (arith, entry-run z k cs, entry-run z n cs, string_eq.same_iff k n))
      (λ e. ground (arith, entry-run z n cs))
entry-run z n (cursor_of k f ∷ cs) =
    write-run z cs k n _ (health_of n (cursor_of k f ∷ cs))
      (λ e. ground (arith, entry-run z k cs, entry-run z n cs, string_eq.same_iff k n))
      (λ e. ground (arith, entry-run z n cs))

known-insert :
    (k n : String) (p : PluginHealth) (ps : List (String × PluginHealth)) (b : Bool)
    → is_some (lookup n ps) ≡ b
    → is_some (lookup n (insert k p ps)) ≡ (if k == n then true else b)
known-insert k n p ps b h = ground (arith, lookup-insert k n p ps)

known-run :
    (z : ℤ) (n : String) (cs : List Call) → is_some (lookup n (run z cs).plugins) ≡ is_known n cs
unfolding run apply mark_starting record_event mark_stale set_cursor_func
known-run z n [] = unfold new_health_aggregator lookup in refl
known-run z n (starting_of k ∷ cs) = known-insert k n _ (run z cs).plugins _ (known-run z n cs)
known-run z n (event_of k t ∷ cs) = known-insert k n _ (run z cs).plugins _ (known-run z n cs)
known-run z n (stale_of k ∷ cs) = known-insert k n _ (run z cs).plugins _ (known-run z n cs)
known-run z n (cursor_of k f ∷ cs) = known-insert k n _ (run z cs).plugins _ (known-run z n cs)

plugin-status_of :
    (call : ℕ → String) (now : ℕ) (z : ℤ) (n : String) (p : PluginHealth)
    → (status_of call now z (n, p)).plugin ≡ n
unfolding status_of
plugin-status_of call now z n p = ground arith

find_by-status_of :
    (call : ℕ → String) (now : ℕ) (z : ℤ) (n : String) (ps : List (String × PluginHealth))
    → find_by (λ (hs : HealthStatus). hs.plugin) n (map (status_of call now z) ps)
      ≡ Option.map (λ p. status_of call now z (n, p)) (lookup n ps)
unfolding find_by lookup status_of
find_by-status_of call now z n [] = refl
find_by-status_of call now z n ((k, p) ∷ ps) = elim (Bool-cases (k == n)) [
  | inl e ↦
      rw (plugin-status_of call now z k p, e)
        (ap (λ j. some (status_of call now z (j, p))) ((string_eq.same_iff k n).0 e))
  | inr e ↦ rw (plugin-status_of call now z k p, e) (find_by-status_of call now z n ps)
]

threshold-run : (z : ℤ) (cs : List Call) → (run z cs).threshold ≡ z
unfolding run apply mark_starting record_event mark_stale set_cursor_func new_health_aggregator
threshold-run z [] = refl
threshold-run z (starting_of k ∷ cs) = threshold-run z cs
threshold-run z (event_of k t ∷ cs) = threshold-run z cs
threshold-run z (stale_of k ∷ cs) = threshold-run z cs
threshold-run z (cursor_of k f ∷ cs) = threshold-run z cs

lookup-run :
    (z : ℤ) (n : String) (cs : List Call)
    → lookup n (run z cs).plugins ≡ (if is_known n cs then some (health_of n cs) else none)
unfolding entry
lookup-run z n cs = ground (arith, known-run z n cs, entry-run z n cs)

-- After any calls, in any order, the snapshot at any time has a row for exactly the plugins that a
-- call named, and the row of a plugin is the status of the newest event time, the newest cursor
-- function and the newest mark that the calls gave that plugin.
pub find_by-snapshot :
    (call : ℕ → String) (now : ℕ) (z : ℤ) (n : String) (cs : List Call)
    → find_by (λ (hs : HealthStatus). hs.plugin) n (snapshot call now (run z cs))
      ≡ (if is_known n cs then some (status_of call now z (n, health_of n cs)) else none)
unfolding snapshot
find_by-snapshot call now z n cs =
    find_by-sort_by (λ (hs : HealthStatus). hs.plugin) n _
    ∙ find_by-status_of call now (run z cs).threshold n (run z cs).plugins
    ∙ rw (lookup-run z n cs, threshold-run z cs) (ground arith)

-- A plugin that is forced stale has a row, and the row is stale.
pub forced-snapshot :
    (call : ℕ → String) (now : ℕ) (h : HealthAggregator) (n : String)
    → (entry h n).forced_stale ≡ true
    → (hs : HealthStatus) × (find_by (λ (s : HealthStatus). s.plugin) n (snapshot call now h)
        ≡ some hs)
      × (hs.state ≡ stale)
unfolding entry snapshot status_of
forced-snapshot call now h n down = found (lookup n h.plugins) down (
    find_by-sort_by (λ (s : HealthStatus). s.plugin) n _
    ∙ find_by-status_of call now h.threshold n h.plugins)
  where
    found :
        (x : Option PluginHealth)
        → (or_else x zero_health).forced_stale ≡ true
        → find_by (λ (s : HealthStatus). s.plugin) n (snapshot call now h)
          ≡ Option.map (λ p. status_of call now h.threshold (n, p)) x
        → (hs : HealthStatus) × (find_by (λ (s : HealthStatus). s.plugin) n (snapshot call now h)
            ≡ some hs)
          × (hs.state ≡ stale)
    found none d e = cc
    found (some p) d e = (status_of call now h.threshold (n, p), e, ground (arith, d))

-- The lag of an event is over the threshold.
abbrev pub IsLate : ℕ → ℤ → Option ℕ → Type 0
IsLate now z none = ⊥
IsLate now z (some t) = ltb_ℤ z (sub_ℕ now t) ≡ true

some_of_if : (b : Bool) (x y : HealthStatus) → (if b then some x else none) ≡ some y → x ≡ y
some_of_if b x y h = ground arith

row-state :
    (call : ℕ → String) (now : ℕ) (z : ℤ) (n : String) (p : PluginHealth) (hs : HealthStatus)
    → status_of call now z (n, p) ≡ hs
    → ((hs.state ≡ stale) ↔ ((p.forced_stale ≡ true) ⊎ IsLate now z p.last_event_at))
      × ((hs.state ≡ starting) ↔ ((p.forced_stale ≡ false) × (p.last_event_at ≡ none)))
      × (hs.last_event_at ≡ p.last_event_at)
unfolding status_of
row-state call now z n p hs e = ground arith

-- After any calls, a row of the snapshot is stale exactly if the newest mark of its plugin is a
-- stale mark or its newest event is late; starting exactly if the newest mark is no stale mark and
-- no event came; and ok in the remaining cases.
pub state-snapshot :
    (call : ℕ → String) (now : ℕ) (z : ℤ) (n : String) (cs : List Call) (hs : HealthStatus)
    → find_by (λ (s : HealthStatus). s.plugin) n (snapshot call now (run z cs)) ≡ some hs
    → ((hs.state ≡ stale) ↔ ((is_down n cs ≡ true) ⊎ IsLate now z (last_event n cs)))
      × ((hs.state ≡ starting) ↔ ((is_down n cs ≡ false) × (last_event n cs ≡ none)))
      × (hs.last_event_at ≡ last_event n cs)
state-snapshot call now z n cs hs found =
    row-state call now z n (health_of n cs) hs
      (some_of_if _ _ _ (rw (find_by-snapshot call now z n cs) at found))
