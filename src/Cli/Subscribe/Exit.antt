-- ===== src/Cli/Subscribe/Exit.antt =====
-- What a run of subscribe prints and with which status it ends.
use supergraph.Common.{
  ℕ, zero, suc, ◌≤◌, ◌≡◌, ◌⊎◌, inl, inr, Bool, true, false, Option, none, some, List, [], ◌∷◌,
  length, arith, if◌then◌else◌, refl,
}
use supergraph.Common.Bytes.{Text}
use supergraph.Common.Json.{Value}
use supergraph.Cli.Subscribe.{
  Frame, connection_ack, next, error, complete, other, Connection, Stream, read_events, subscribed,
  subscribe_once, wait_for_ack, Options, World, Run, attempts, stopped, unless_last, finish,
  max_attempts, run_subscribe, build_subscription, parse_vars,
}

-- With `once` a stream prints one event and succeeds, or none and fails; without, it fails.
abbrev IsStream : Bool → Stream → Type 0
IsStream true s = ((s.1 ≡ true) × (length s.0 ≡ 1)) ⊎ ((s.1 ≡ false) × (s.0 ≡ []))
IsStream false s = s.1 ≡ false

nothing-IsStream : (once : Bool) → IsStream once ([], false)
nothing-IsStream true = inr (refl, refl)
nothing-IsStream false = refl

read_events-IsStream :
    (fails once : Bool) (fs : List Frame) → IsStream once (read_events fails once fs)
unfolding read_events
read_events-IsStream fails once [] = nothing-IsStream once
read_events-IsStream true once (next v ∷ fs) = nothing-IsStream once
read_events-IsStream false true (next v ∷ fs) = inl (refl, refl)
read_events-IsStream false false (next v ∷ fs) = read_events-IsStream false false fs
read_events-IsStream fails once (error ∷ fs) = nothing-IsStream once
read_events-IsStream fails once (complete ∷ fs) = nothing-IsStream once
read_events-IsStream fails once (connection_ack ∷ fs) = read_events-IsStream fails once fs
read_events-IsStream fails once (other ∷ fs) = read_events-IsStream fails once fs

if-IsStream :
    (once b : Bool) (s : Stream) → IsStream once s → IsStream once (if b then ([], false) else s)
if-IsStream once true s v = nothing-IsStream once
if-IsStream once false s v = v

subscribed-IsStream :
    (fails once : Bool) (c : Connection) (o : Option (List Frame))
    → IsStream once (subscribed fails once c o)
subscribed-IsStream fails once c none = nothing-IsStream once
subscribed-IsStream fails once c (some fs) =
    if-IsStream once c.subscribe_fails (read_events fails once fs)
      (read_events-IsStream fails once fs)

subscribe_once-IsStream :
    (fails once : Bool) (c : Connection) → IsStream once (subscribe_once fails once c)
unfolding subscribe_once
subscribe_once-IsStream fails once c =
    let s = subscribed fails once c (wait_for_ack c.frames) in
    if-IsStream once c.dial_fails (if c.init_fails then ([], false) else s)
      (if-IsStream once c.init_fails s (subscribed-IsStream fails once c (wait_for_ack c.frames)))

-- The same of a run, whose status is 2 where it fails.
abbrev pub IsRun : Bool → Run → Type 0
IsRun true r = ((r.status ≡ 0) × (length r.events ≡ 1)) ⊎ ((r.status ≡ 2) × (r.events ≡ []))
IsRun false r = r.status ≡ 2

stopped-IsRun : (once : Bool) → IsRun once stopped
stopped-IsRun true = inr (refl, refl)
stopped-IsRun false = refl

unless_last-IsRun :
    (once : Bool) (left : ℕ) (c : Bool) (r : Run) → IsRun once r → IsRun once (unless_last left c r)
unless_last-IsRun once zero c r v = stopped-IsRun once
unless_last-IsRun once (suc left) true r v = stopped-IsRun once
unless_last-IsRun once (suc left) false r v = v

finish-IsRun :
    (once : Bool) (s : Stream) (r : Run) → IsStream once s → IsRun once r → IsRun once (finish s r)
finish-IsRun true (events, true) r (inl (t, one)) v = inl (refl, one)
finish-IsRun true (events, true) r (inr (f, e)) v = absurd (cc)
finish-IsRun true (events, false) r (inl (t, one)) v = absurd (cc)
finish-IsRun true (events, false) r (inr (f, e)) v = rw e v
finish-IsRun false (events, true) r s v = absurd (cc)
finish-IsRun false (events, false) r s v = v

attempts-IsRun :
    (w : World) (once : Bool) (attempt left : ℕ) → IsRun once (attempts w once attempt left)
unfolding attempts
attempts-IsRun w once attempt zero = stopped-IsRun once
attempts-IsRun w once attempt (suc left) =
    let again = attempts w once (suc attempt) left in
    finish-IsRun once (subscribe_once w.write_fails once (w.connect attempt))
      (unless_last left (w.is_cancelled attempt) again)
      (subscribe_once-IsStream w.write_fails once (w.connect attempt))
      (unless_last-IsRun once left (w.is_cancelled attempt) again
        (attempts-IsRun w once (suc attempt) left))

dials-finish : (s : Stream) (r : Run) → (finish s r).dials ≤ suc r.dials
dials-finish (events, true) r = omega arith
dials-finish (events, false) r = omega arith

dials-unless_last : (left : ℕ) (c : Bool) (r : Run) → (unless_last left c r).dials ≤ r.dials
dials-unless_last zero c r = omega arith
dials-unless_last (suc left) true r = omega arith
dials-unless_last (suc left) false r = omega arith

dials-attempts :
    (w : World) (once : Bool) (attempt left : ℕ) → (attempts w once attempt left).dials ≤ left
unfolding attempts
dials-attempts w once attempt zero = omega arith
dials-attempts w once attempt (suc left) =
    let again = attempts w once (suc attempt) left in
    omega (
      arith,
      dials-finish (subscribe_once w.write_fails once (w.connect attempt))
          (unless_last left (w.is_cancelled attempt) again),
      dials-unless_last left (w.is_cancelled attempt) again,
      dials-attempts w once (suc attempt) left,
    )

-- A run whose arguments are in order dials no more often than maxRetries + 1 times. With --once it
-- prints one event and exits with 0, or prints none and exits with 2; without --once it exits with 2.
pub run_subscribe_exit :
    (w : World) (o : Options) {vars : List (Text × Value)} {doc : Text × List (Text × Value)}
    → parse_vars w.parse o.var_args [] ≡ some vars
    → build_subscription o.field vars ≡ some doc
    → IsRun o.once (run_subscribe w o) × ((run_subscribe w o).dials ≤ max_attempts o.max_retries)
unfolding run_subscribe
run_subscribe_exit w o p q =
    rw (p, q)
      (
        attempts-IsRun w o.once 0 (max_attempts o.max_retries),
        dials-attempts w o.once 0 (max_attempts o.max_retries),
      )
