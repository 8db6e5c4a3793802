-- ===== src/Core/Bus.antt =====
-- core/bus.go. A channel is its buffer and whether it is closed; `subs` of the source maps an id to
-- a channel, and a channel outlives its place in the map, so the ids in the map and the channels are
-- two fields. `waiting` holds the goroutines of `Subscribe` that wait for the end of their context.
-- Sending on a closed channel and closing one twice panic in Go: they give `none`.
pub mod Offers
pub mod Safety
pub mod Backlog
use supergraph.Common.{
  ℕ, ◌+◌, Bool, true, false, Option, none, some, List, [], ◌∷◌, ◌++◌, length, ltb, ◌==◌, nat_eq,
  if◌then◌else◌, select, not, or_else,
}
use supergraph.Common.Dict.{lookup, insert}
use supergraph.Core.Envelope.{Envelope}

abbrev pub sub_buffer : ℕ
sub_buffer = 256

pub record Channel : Type 0 where
  pub buffer : List Envelope
  pub closed : Bool

pub record Bus : Type 0 where
  pub next : ℕ
  pub subs : List ℕ
  pub channels : List (ℕ × Channel)
  pub waiting : List ℕ

unfoldable pub new_bus : Bus
new_bus = record { next = 0; subs = []; channels = []; waiting = [] }

abbrev pub open_channel : Channel
open_channel = record { buffer = []; closed = false }

abbrev pub without : ℕ → List ℕ → List ℕ
without i ids = select (λ j. not (j == i)) ids

-- The new bus and the channel's id.
unfoldable pub subscribe : Bus → Bus × ℕ
subscribe b = (
  record b {
    next = b.next + 1;
    subs = b.next ∷ b.subs;
    channels = insert b.next open_channel b.channels;
    waiting = b.next ∷ b.waiting;
  },
  b.next,
)

-- `close(ch)`
unfoldable pub close : Channel → Option Channel
close c = if c.closed then none else some (record c { closed = true })

-- The rest of the goroutine of `Subscribe`, once the context of subscriber `i` is done.
unfoldable pub cancel : ℕ → Bus → Option Bus
unfolding close
cancel i b = elim (close (or_else (lookup i b.channels) open_channel)) [
  | none ↦ none
  | some c ↦ some (record b {
    subs = without i b.subs;
    channels = insert i c b.channels;
    waiting = without i b.waiting;
  })
]

-- `select { case ch <- e: default: }`
unfoldable pub offer : Envelope → Channel → Option Channel
offer e c =
    if c.closed
    then none
    else if ltb (length c.buffer) sub_buffer
    then some (record c { buffer = c.buffer ++ e ∷ [] })
    else some c

-- The loop of `publish` over the ids in the map.
unfoldable pub publish_to : Envelope → List ℕ → List (ℕ × Channel) → Option (List (ℕ × Channel))
unfolding offer
publish_to e [] cs = some cs
publish_to e (i ∷ is) cs = elim (offer e (or_else (lookup i cs) open_channel)) [
  | none ↦ none
  | some c ↦ publish_to e is (insert i c cs)
]

unfoldable pub publish : Envelope → Bus → Option Bus
publish e b = elim (publish_to e b.subs b.channels) [
  | none ↦ none
  | some cs ↦ some (record b { channels = cs })
]

abbrev pop_buffer : ℕ → Bus → Channel → List Envelope → Option (Envelope × Bus)
pop_buffer i b c [] = none
pop_buffer i b c (e ∷ es) =
    some (e, record b { channels = insert i (record c { buffer = es }) b.channels })

abbrev pop : ℕ → Bus → Option Channel → Option (Envelope × Bus)
pop i b none = none
pop i b (some c) = pop_buffer i b c c.buffer

-- A subscriber's receive: `none` where it would block or the channel is drained and closed.
unfoldable pub receive : ℕ → Bus → Option (Envelope × Bus)
receive i b = pop i b (lookup i b.channels)
