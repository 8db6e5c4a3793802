-- ===== src/Core/Bus/Backlog.antt =====
-- A subscriber that does not read keeps the oldest envelopes, for core/bus.go.
use mathlib.Core.List.{append_assoc}
use supergraph.Common.{
  ℕ, ◌≤◌, ◌≡◌, refl, ap, sym, ◌∙◌, true, Option, none, some, List, [], ◌∷◌, ◌++◌, arith, length,
  ltb, if◌then◌else◌, Bool-cases, inl, inr, contains, take, take_all, take-append_full, nat_eq,
}
use supergraph.Core.Envelope.{Envelope}
use supergraph.Core.Bus.{Channel, Bus, sub_buffer, publish}
use supergraph.Core.Bus.Offers.{deliver, channel_at}
use supergraph.Core.Bus.Safety.{Reach, next, publishes, Reach-IsValid, publish_fan_out}

-- A publish of each envelope in turn.
abbrev pub publish_all : List Envelope → Bus → Option Bus
publish_all [] b = some b
publish_all (e ∷ es) b = elim (publish e b) [ none ↦ none | some b' ↦ publish_all es b' ]

deliver-take :
    (n : ℕ) (buf : List Envelope) (e : Envelope) (es : List Envelope)
    → length buf ≤ n
    → take n ((if ltb (length buf) n then buf ++ e ∷ [] else buf) ++ es) ≡ take n (buf ++ e ∷ es)
deliver-take n buf e es h = elim (Bool-cases (ltb (length buf) n)) [
  | inl p ↦ rw p (ap (take n) (append_assoc buf (e ∷ []) es))
  | inr p ↦ rw p (
      take-append_full n buf es (ground arith)
      ∙ sym (take-append_full n buf (e ∷ es) (ground arith)))
]

deliver_buffer :
    (e : Envelope) (c : Channel)
    → (deliver e c).buffer
      ≡ (if ltb (length c.buffer) sub_buffer then c.buffer ++ e ∷ [] else c.buffer)
deliver_buffer e c = ground arith

-- In every reachable bus, publishing any envelopes in turn does not panic, and leaves a subscriber
-- that receives nothing meanwhile with the first 256 of its old buffer followed by the new
-- envelopes: what is over the depth is dropped from the new end.
pub publish_all_backlog :
    (es : List Envelope) {b : Bus} (j : ℕ)
    → Reach b
    → contains b.subs j ≡ true
    → (b' : Bus) × (publish_all es b ≡ some b')
      × ((channel_at j b'.channels).buffer
          ≡ take sub_buffer ((channel_at j b.channels).buffer ++ es))
publish_all_backlog [] {b} j r m =
    (b, refl, sym (take_all sub_buffer _ ((Reach-IsValid r).bounded j)))
publish_all_backlog (e ∷ es) {b} j r m =
    let (cs, sent, at) = publish_fan_out e r in
    let b1 : Bus = record b { channels = cs } in
    let (b', rest, buf) = publish_all_backlog es {b = b1} j (next r (publishes e b b1 sent)) m in
    let here : (channel_at j cs).buffer ≡ (deliver e (channel_at j b.channels)).buffer =
      ground (arith, at j, m) in
    (
      b',
      rw (sent, publish_all) rest,
      buf
          ∙ ap (λ l. take sub_buffer (l ++ es)) (here ∙ deliver_buffer e (channel_at j b.channels))
          ∙ deliver-take sub_buffer (channel_at j b.channels).buffer e es
              ((Reach-IsValid r).bounded j),
    )
