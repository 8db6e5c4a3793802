-- ===== src/Core/Bus/Safety.antt =====
-- No reachable bus panics, and what a publish does to every channel, for core/bus.go.
use mathlib.Core.Path.{subst}
use supergraph.Common.{
  ℕ, ◌≤◌, ◌<◌, ◌≡◌, refl, ap, sym, ◌∙◌, true, false, some, List, ◌∷◌, arith, length, nat_eq,
  eqb_iff, beq_refl, if◌then◌else◌, All, contains,
}
use supergraph.Common.Dict.{lookup, insert, lookup-insert}
use supergraph.Core.Envelope.{Envelope}
use supergraph.Core.Bus.{
  Channel, Bus, sub_buffer, new_bus, open_channel, without, subscribe, cancel, publish, receive,
}
use supergraph.Core.Bus.Offers.{
  deliver, channel_at, AllOpen, AllDistinct, AllOpen-insert, publish_to_open, below-contains,
  below-suc, distinct-without, below-without, AllOpen-without, AllOpen-contains, AllOpen-same,
  deliver_bounded, pop_lem,
}

-- Every id in the map has an open channel and one waiting goroutine, ids are not given twice, and
-- no buffer is over its depth.
pub record IsValid (b : Bus) : Type 0 where
  pub same : b.waiting ≡ b.subs
  pub all_open : AllOpen b.subs b.channels
  pub distinct : AllDistinct b.subs
  pub below : All (λ i. i < b.next) b.subs
  pub bounded : (i : ℕ) → length (channel_at i b.channels).buffer ≤ sub_buffer

-- What the callers of the bus and its goroutines can do, in any order.
pub data Step : Bus → Bus → Type 0 where
  subscribes : (b : Bus) → Step b (subscribe b).0
  ends : (i : ℕ) (b b' : Bus) → contains b.waiting i ≡ true → cancel i b ≡ some b' → Step b b'
  publishes : (e : Envelope) (b b' : Bus) → publish e b ≡ some b' → Step b b'
  receives : (i : ℕ) (e : Envelope) (b b' : Bus) → receive i b ≡ some (e, b') → Step b b'

pub data Reach : Bus → Type 0 where
  fresh : Reach new_bus
  next : {b b' : Bus} → Reach b → Step b b' → Reach b'

new_bus-IsValid : IsValid new_bus
unfolding new_bus lookup
new_bus-IsValid = record {
  same = refl;
  all_open = tt;
  distinct = tt;
  below = tt;
  bounded = λ i. omega arith;
}

subscribe-IsValid : (b : Bus) → IsValid b → IsValid (subscribe b).0
unfolding subscribe
subscribe-IsValid b v = record {
  same = ap (λ l. b.next ∷ l) v.same;
  all_open = (
    ground (arith, lookup-insert b.next b.next open_channel b.channels, beq_refl b.next),
    AllOpen-insert b.subs b.next open_channel b.channels refl v.all_open,
  );
  distinct = (below-contains b.next b.subs v.below, v.distinct);
  below = (omega arith, below-suc b.next b.subs v.below);
  bounded = λ i. ground (arith, lookup-insert b.next i open_channel b.channels, v.bounded i);
}

-- The channel of a waiting subscriber is closed once, and its id leaves the map.
cancel_open :
    (i : ℕ) (b : Bus)
    → (channel_at i b.channels).closed ≡ false
    → cancel i b
      ≡ some (record b {
        subs = without i b.subs;
        channels = insert i (record (channel_at i b.channels) { closed = true }) b.channels;
        waiting = without i b.waiting;
      })
unfolding cancel
cancel_open i b h = ground (arith, h)

cancelled-IsValid :
    (i : ℕ) (b : Bus)
    → IsValid b
    → IsValid (record b {
      subs = without i b.subs;
      channels = insert i (record (channel_at i b.channels) { closed = true }) b.channels;
      waiting = without i b.waiting;
    })
cancelled-IsValid i b v = record {
  same = ap (without i) v.same;
  all_open = AllOpen-without i _ b.subs b.channels v.all_open;
  distinct = distinct-without i b.subs v.distinct;
  below = below-without i b.next b.subs v.below;
  bounded = λ j. ground (
    arith,
    lookup-insert i j (record (channel_at i b.channels) { closed = true }) b.channels,
    v.bounded i,
    v.bounded j,
  );
}

some_inj {ℓ} : {A : Type ℓ} {x y : A} → some x ≡ some y → x ≡ y
some_inj h = cc

publish_open :
    (e : Envelope) (b : Bus)
    → IsValid b
    → (cs : List (ℕ × Channel)) × (publish e b ≡ some (record b { channels = cs }))
      × ((j : ℕ)
          → lookup j cs ≡ (
              if contains b.subs j
              then some (deliver e (channel_at j b.channels))
              else lookup j b.channels))
unfolding publish
publish_open e b v =
    let (cs, sent, at) = publish_to_open e b.subs b.channels v.all_open v.distinct in
    (cs, rw (sent, publish), at)

-- New contents of the channels that closes none and overfills none.
channels-IsValid :
    (b : Bus) (cs : List (ℕ × Channel))
    → IsValid b
    → ((j : ℕ) → (channel_at j cs).closed ≡ (channel_at j b.channels).closed)
    → ((j : ℕ) → length (channel_at j cs).buffer ≤ sub_buffer)
    → IsValid (record b { channels = cs })
channels-IsValid b cs v same fits = record {
  same = v.same;
  all_open = AllOpen-same b.subs b.channels cs same v.all_open;
  distinct = v.distinct;
  below = v.below;
  bounded = fits;
}

publish-IsValid : (e : Envelope) (b b' : Bus) → IsValid b → publish e b ≡ some b' → IsValid b'
publish-IsValid e b b' v h =
    let (cs, sent, at) = publish_open e b v in
    subst IsValid (some_inj (sym sent ∙ h)) (
      channels-IsValid b cs v (λ j. ground (arith, at j))
        (λ j.
          ground
            (arith, at j, deliver_bounded e (channel_at j b.channels) (v.bounded j), v.bounded j)))

receive-IsValid :
    (i : ℕ) (e : Envelope) (b b' : Bus) → IsValid b → receive i b ≡ some (e, b') → IsValid b'
unfolding receive
receive-IsValid i e b b' v h =
    let (c, rest, at, full, eq) = pop_lem i e b b' (lookup i b.channels) h in
    let c' : Channel = record c { buffer = rest } in
    subst IsValid (sym eq) (
      channels-IsValid b (insert i c' b.channels) v
        (λ j. ground (arith, lookup-insert i j c' b.channels, at, eqb_iff i j))
        (λ j. ground (
          arith,
          lookup-insert i j c' b.channels,
          at,
          full,
          v.bounded i,
          v.bounded j,
          ap length full,
        )))

Step-IsValid : {b b' : Bus} → Step b b' → IsValid b → IsValid b'
Step-IsValid (subscribes b) v = subscribe-IsValid b v
Step-IsValid (ends i b b' w h) v =
    subst IsValid
      (some_inj (
        sym (cancel_open i b (AllOpen-contains i b.subs b.channels v.all_open (rw v.same at w)))
        ∙ h))
      (cancelled-IsValid i b v)
Step-IsValid (publishes e b b' h) v = publish-IsValid e b b' v h
Step-IsValid (receives i e b b' h) v = receive-IsValid i e b b' v h

pub Reach-IsValid : {b : Bus} → Reach b → IsValid b
Reach-IsValid fresh = new_bus-IsValid
Reach-IsValid (next r s) = Step-IsValid s (Reach-IsValid r)

-- In every bus that the operations can reach, in any order, a publish does not panic, it changes
-- only the channels, and each subscribed channel has the envelope behind its buffer if it had room
-- and is unchanged if it was full; every other channel is unchanged.
pub publish_fan_out :
    {b : Bus} (e : Envelope)
    → Reach b
    → (cs : List (ℕ × Channel)) × (publish e b ≡ some (record b { channels = cs }))
      × ((j : ℕ)
          → lookup j cs ≡ (
              if contains b.subs j
              then some (deliver e (channel_at j b.channels))
              else lookup j b.channels))
publish_fan_out {b} e r = publish_open e b (Reach-IsValid r)

-- In every bus that the operations can reach, the goroutine of a subscriber that has not yet ended
-- closes its channel without a panic, and takes its id out of the map.
cancel_safe :
    {b : Bus} (i : ℕ)
    → Reach b
    → contains b.waiting i ≡ true
    → (b' : Bus) × (cancel i b ≡ some b')
      × (b'.subs ≡ without i b.subs)
      × ((channel_at i b'.channels).closed ≡ true)
cancel_safe {b} i r w =
    let v = Reach-IsValid r in
    let c : Channel = record (channel_at i b.channels) { closed = true } in
    (
      record b {
        subs = without i b.subs;
        channels = insert i c b.channels;
        waiting = without i b.waiting;
      },
      cancel_open i b (AllOpen-contains i b.subs b.channels v.all_open (rw v.same at w)),
      refl,
      ground (arith, lookup-insert i i c b.channels, beq_refl i),
    )
