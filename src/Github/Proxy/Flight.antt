-- ===== src/Github/Proxy/Flight.antt =====
-- plugins/github/proxy.go: singleflight, and the order in which its callers take the lock.
use supergraph.Common.{
  ℕ, suc, ◌+◌, ◌≤◌, ◌≡◌, refl, ap, sym, ◌∙◌, Bool, true, false, ◌&&◌, Option, none, some, List, [],
  ◌∷◌, ◌++◌, bytes_eq, ◌==◌, if◌then◌else◌, arith, is_some,
}
use supergraph.Common.Dict.{lookup, insert, remove, lookup-insert, lookup-remove}
use supergraph.Common.Bytes.{Text}
use supergraph.Github.Store.{Got}

-- A caller that runs `fn`, with what `fn` returned once it has. `flights` is the map of the keys in
-- flight, and `waiting` the keys of the callers that wait for another's fetch.
pub record Flights : Type 0 where
  pub flights : List (Text × Bool)
  pub leaders : List (Text × Option Got)
  pub waiting : List Text

abbrev enter_found : Text → Flights → Option Bool → Flights
enter_found key s (some _) = record s { waiting = key ∷ s.waiting }
enter_found key s none = record s {
  flights = insert key true s.flights;
  leaders = (key, none) ∷ s.leaders;
}

-- The first section under the lock.
unfoldable pub enter : Text → Flights → Flights
enter key s = enter_found key s (lookup key s.flights)

-- The second section under the lock.
unfoldable pub leave : Text → List (Text × Option Got) → Flights → Flights
leave key leaders s = record s { flights = remove key s.flights; leaders = leaders }

-- A caller comes, the `fn` of one returns, or one whose `fn` has returned leaves.
pub data Step : Flights → Flights → Type 0 where
  enters : (key : Text) (s : Flights) → Step s (enter key s)
  returns :
      (key : Text) (r : Got) (before after : List (Text × Option Got)) (s : Flights)
      → s.leaders ≡ before ++ (key, none) ∷ after
      → Step s (record s { leaders = before ++ (key, some r) ∷ after })
  leaves :
      (key : Text) (r : Got) (before after : List (Text × Option Got)) (s : Flights)
      → s.leaders ≡ before ++ (key, some r) ∷ after
      → Step s (leave key (before ++ after) s)

pub data IsReachable : Flights → Type 0 where
  started : IsReachable (record { flights = []; leaders = []; waiting = [] })
  then_step : {s t : Flights} → IsReachable s → Step s t → IsReachable t

-- The callers that lead a flight of a key, and those among them whose `fn` still runs.
unfoldable pub leading : Text → List (Text × Option Got) → ℕ
leading key [] = 0
leading key ((k, r) ∷ ls) = let rest = leading key ls in if k == key then suc rest else rest

abbrev pub is_running : Option Got → Bool
is_running none = true
is_running (some _) = false

unfoldable pub running : Text → List (Text × Option Got) → ℕ
running key [] = 0
running key ((k, r) ∷ ls) =
    let rest = running key ls in if k == key && is_running r then suc rest else rest

running-leading : (key : Text) (ls : List (Text × Option Got)) → running key ls ≤ leading key ls
unfolding running leading
running-leading key [] = omega arith
running-leading key ((k, r) ∷ ls) = ground (arith, running-leading key ls)

leading-append :
    (key : Text) (a b : List (Text × Option Got))
    → leading key (a ++ b) ≡ leading key a + leading key b
unfolding leading
leading-append key [] b = omega arith
leading-append key ((k, r) ∷ a) b = ground (arith, leading-append key a b)

IsLed : Flights → Type 0
IsLed s = (key : Text) → leading key s.leaders ≡ (if is_some (lookup key s.flights) then 1 else 0)

enter-IsLed : (key : Text) (s : Flights) → IsLed s → IsLed (enter key s)
unfolding enter IsLed
enter-IsLed key s led j = go (lookup key s.flights) refl
  where
    go :
        (x : Option Bool)
        → lookup key s.flights ≡ x
        → leading j (enter_found key s x).leaders
          ≡ (if is_some (lookup j (enter_found key s x).flights) then 1 else 0)
    go (some b) e = led j
    go none e =
        unfold leading in
        ground
          (arith, led j, led key, e, lookup-insert key j true s.flights, bytes_eq.same_iff key j)

middle :
    (key j : Text) (r : Option Got) (before after ls : List (Text × Option Got))
    → ls ≡ before ++ (key, r) ∷ after
    → leading j ls
      ≡ leading j before + (if key == j then suc (leading j after) else leading j after)
unfolding leading
middle key j r before after ls e = ap (leading j) e ∙ leading-append j before ((key, r) ∷ after)

Step-IsLed : (s t : Flights) → Step s t → IsLed s → IsLed t
unfolding IsLed leave
Step-IsLed s _ (enters key _) led j = enter-IsLed key s led j
Step-IsLed s _ (returns key r before after _ e) led j =
    middle key j (some r) before after _ refl
    ∙ sym (middle key j none before after s.leaders e)
    ∙ led j
Step-IsLed s _ (leaves key r before after _ e) led j = ground (
  arith,
  led j,
  led key,
  leading-append j before after,
  lookup-remove key j s.flights,
  middle key j (some r) before after s.leaders e,
  bytes_eq.same_iff key j,
)

IsReachable-IsLed : (s : Flights) → IsReachable s → IsLed s
unfolding IsLed
IsReachable-IsLed _ started key = unfold leading in unfold lookup in refl
IsReachable-IsLed t (then_step {s} r step) key = Step-IsLed s t step (IsReachable-IsLed s r) key

-- In whatever order its callers come, wait, return and leave, a key is never fetched by two at once,
-- and while one fetches it the map has it, so that each caller that comes waits.
pub running_once :
    (s : Flights) (key : Text)
    → IsReachable s
    → running key s.leaders ≤ (if is_some (lookup key s.flights) then 1 else 0)
unfolding IsLed
running_once s key r = ground (arith, running-leading key s.leaders, IsReachable-IsLed s r key)
