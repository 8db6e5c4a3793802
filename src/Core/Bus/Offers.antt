-- ===== src/Core/Bus/Offers.antt =====
-- What one operation does to the channels, for core/bus.go.
use supergraph.Common.{
  ℕ, ◌+◌, ◌≤◌, ◌<◌, ◌≡◌, refl, ◌∙◌, true, false, Option, none, some, List, [], ◌∷◌, ◌++◌, arith,
  length, length-append, ltb, ◌==◌, nat_eq, eqb_iff, if◌then◌else◌, or_else, Bool-cases, inl, inr,
  All, contains,
}
use supergraph.Common.Dict.{lookup, insert, lookup-insert}
use supergraph.Core.Envelope.{Envelope}
use supergraph.Core.Bus.{
  Channel, Bus, sub_buffer, open_channel, without, publish_to, pop, pop_buffer,
}

-- What a send does to an open channel.
abbrev pub deliver : Envelope → Channel → Channel
deliver e c =
    if ltb (length c.buffer) sub_buffer then record c { buffer = c.buffer ++ e ∷ [] } else c

abbrev pub channel_at : ℕ → List (ℕ × Channel) → Channel
channel_at i cs = or_else (lookup i cs) open_channel

-- The ids of open channels, each named once.
abbrev pub AllOpen : List ℕ → List (ℕ × Channel) → Type 0
AllOpen [] cs = Unit
AllOpen (i ∷ is) cs = ((channel_at i cs).closed ≡ false) × AllOpen is cs

abbrev pub AllDistinct : List ℕ → Type 0
AllDistinct [] = Unit
AllDistinct (i ∷ is) = (contains is i ≡ false) × AllDistinct is

pub AllOpen-insert :
    (is : List ℕ) (i : ℕ) (c : Channel) (cs : List (ℕ × Channel))
    → c.closed ≡ false
    → AllOpen is cs
    → AllOpen is (insert i c cs)
AllOpen-insert [] i c cs p h = tt
AllOpen-insert (j ∷ js) i c cs p h =
    (ground (arith, lookup-insert i j c cs, h.0), AllOpen-insert js i c cs p h.1)

-- To open channels a publish sends without a panic, and every channel named once gets one offer.
pub publish_to_open :
    (e : Envelope) (is : List ℕ) (cs : List (ℕ × Channel))
    → AllOpen is cs
    → AllDistinct is
    → (cs' : List (ℕ × Channel)) × (publish_to e is cs ≡ some cs')
      × ((j : ℕ)
          → lookup j cs'
            ≡ (if contains is j then some (deliver e (channel_at j cs)) else lookup j cs))
unfolding publish_to contains
publish_to_open e [] cs h d = (cs, refl, λ j. refl)
publish_to_open e (i ∷ is) cs h d =
    let c : Channel = deliver e (channel_at i cs) in
    let (cs', sent, at) =
      publish_to_open e is (insert i c cs) (AllOpen-insert is i c cs (ground (arith, h.0)) h.1)
        d.1 in
    (
      cs',
      ground (arith, h.0, sent),
      λ j. ground (arith, at j, lookup-insert i j c cs, eqb_iff i j, d.0),
    )

pub below-contains : (n : ℕ) (is : List ℕ) → All (λ i. i < n) is → contains is n ≡ false
unfolding contains
below-contains n [] h = refl
below-contains n (i ∷ is) h = ground (arith, eqb_iff i n, h.0, below-contains n is h.1)

pub below-suc : (n : ℕ) (is : List ℕ) → All (λ i. i < n) is → All (λ i. i < n + 1) is
below-suc n [] h = tt
below-suc n (i ∷ is) h = (omega (arith, h.0), below-suc n is h.1)

pub contains-without :
    (i j : ℕ) (is : List ℕ) → contains is j ≡ false → contains (without i is) j ≡ false
unfolding contains
contains-without i j [] h = refl
contains-without i j (k ∷ ks) h = ground (arith, eqb_iff k i, contains-without i j ks)

pub distinct-without : (i : ℕ) (is : List ℕ) → AllDistinct is → AllDistinct (without i is)
distinct-without i [] h = tt
distinct-without i (k ∷ ks) h = elim (Bool-cases (k == i)) [
  | inl e ↦ rw (e, AllDistinct) (distinct-without i ks h.1)
  | inr e ↦ rw (e, AllDistinct) (contains-without i k ks h.0, distinct-without i ks h.1)
]

pub below-without : (i n : ℕ) (is : List ℕ) → All (λ j. j < n) is → All (λ j. j < n) (without i is)
below-without i n [] h = tt
below-without i n (k ∷ ks) h = elim (Bool-cases (k == i)) [
  | inl e ↦ rw (e, All) (below-without i n ks h.1)
  | inr e ↦ rw (e, All) (h.0, below-without i n ks h.1)
]

-- What happens to the channel of `i` does not show at the other ids.
pub AllOpen-without :
    (i : ℕ) (c : Channel) (is : List ℕ) (cs : List (ℕ × Channel))
    → AllOpen is cs
    → AllOpen (without i is) (insert i c cs)
AllOpen-without i c [] cs h = tt
AllOpen-without i c (k ∷ ks) cs h = elim (Bool-cases (k == i)) [
  | inl e ↦ rw (e, AllOpen) (AllOpen-without i c ks cs h.1)
  | inr e ↦
      rw (e, AllOpen)
        (
          ground (arith, lookup-insert i k c cs, eqb_iff i k, eqb_iff k i, h.0),
          AllOpen-without i c ks cs h.1,
        )
]

pub AllOpen-contains :
    (i : ℕ) (is : List ℕ) (cs : List (ℕ × Channel))
    → AllOpen is cs
    → contains is i ≡ true
    → (channel_at i cs).closed ≡ false
unfolding contains
AllOpen-contains i [] cs h m = cc
AllOpen-contains i (k ∷ ks) cs h m = elim (Bool-cases (k == i)) [
  | inl e ↦ rw ((eqb_iff k i).0 e) at h.0
  | inr e ↦ AllOpen-contains i ks cs h.1 (ground arith)
]

pub AllOpen-same :
    (is : List ℕ) (cs cs' : List (ℕ × Channel))
    → ((j : ℕ) → (channel_at j cs').closed ≡ (channel_at j cs).closed)
    → AllOpen is cs
    → AllOpen is cs'
AllOpen-same [] cs cs' same h = tt
AllOpen-same (i ∷ is) cs cs' same h = (same i ∙ h.0, AllOpen-same is cs cs' same h.1)

pub deliver_bounded :
    (e : Envelope) (c : Channel)
    → length c.buffer ≤ sub_buffer
    → length (deliver e c).buffer ≤ sub_buffer
deliver_bounded e c h = ground (arith, length-append c.buffer (e ∷ []))

pub pop_buffer_lem :
    (i : ℕ) (e : Envelope) (b b' : Bus) (c : Channel) (es : List Envelope)
    → pop_buffer i b c es ≡ some (e, b')
    → (rest : List Envelope) × (es ≡ e ∷ rest)
      × (b' ≡ record b { channels = insert i (record c { buffer = rest }) b.channels })
pop_buffer_lem i e b b' c [] h = cc
pop_buffer_lem i e b b' c (x ∷ xs) h = (xs, cc, cc)

pub pop_lem :
    (i : ℕ) (e : Envelope) (b b' : Bus) (o : Option Channel)
    → pop i b o ≡ some (e, b')
    → (c : Channel) × (rest : List Envelope) × (o ≡ some c)
      × (c.buffer ≡ e ∷ rest)
      × (b' ≡ record b { channels = insert i (record c { buffer = rest }) b.channels })
pop_lem i e b b' none h = cc
pop_lem i e b b' (some c) h =
    let (rest, p, q) = pop_buffer_lem i e b b' c c.buffer h in (c, rest, refl, p, q)
