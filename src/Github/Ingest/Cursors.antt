-- ===== src/Github/Ingest/Cursors.antt =====
-- plugins/github/ingest.go: the order of the cursors, and that none is moved back.
use supergraph.Common.{
  ◌≡◌, refl, true, false, List, [], ◌∷◌, bytes_eq, ◌==◌, if◌then◌else◌, or_else, All, arith,
  Bool-cases, inl, inr,
}
use mathlib.Core.Path.{subst}
use supergraph.Common.Int.{ℤ, pos, ltb_ℤ}
use supergraph.Common.Dict.{lookup, insert, lookup-insert}
use supergraph.Common.Bytes.{Text}
use supergraph.Github.Ingest.{Delivery, Hook, World, cursor_name, last_of, missed, max_id, advanced}

-- No delivery is beyond the number.
abbrev pub IsBelow : ℤ → List Delivery → Type 0
IsBelow m ds = All (λ d. ltb_ℤ m d.id ≡ false) ds

pub ltb_irrefl : (a : ℤ) → ltb_ℤ a a ≡ false
ltb_irrefl a = ground arith

ltb_asym : (a b : ℤ) → ltb_ℤ a b ≡ true → ltb_ℤ b a ≡ false
ltb_asym a b h = ground (arith, h)

pub le_trans : (a b c : ℤ) → ltb_ℤ a b ≡ false → ltb_ℤ b c ≡ false → ltb_ℤ a c ≡ false
le_trans a b c h k = ground (arith, h, k)

abbrev larger : ℤ → Delivery → ℤ
larger m d = if ltb_ℤ m d.id then d.id else m

larger-ge :
    (m : ℤ) (d : Delivery) → (ltb_ℤ (larger m d) m ≡ false) × (ltb_ℤ (larger m d) d.id ≡ false)
larger-ge m d = ground arith

max_id-ge : (m : ℤ) (ds : List Delivery) → ltb_ℤ (max_id m ds) m ≡ false
unfolding max_id
max_id-ge m [] = ltb_irrefl m
max_id-ge m (d ∷ ds) =
    le_trans (max_id (larger m d) ds) (larger m d) m (max_id-ge (larger m d) ds) (larger-ge m d).0

pub max_id-IsBelow : (m : ℤ) (ds : List Delivery) → IsBelow (max_id m ds) ds
unfolding max_id
max_id-IsBelow m [] = tt
max_id-IsBelow m (d ∷ ds) = (
  le_trans (max_id (larger m d) ds) (larger m d) d.id (max_id-ge (larger m d) ds) (larger-ge m d).1,
  max_id-IsBelow (larger m d) ds,
)

pub max_id_below : (m : ℤ) (ds : List Delivery) → IsBelow m ds → max_id m ds ≡ m
unfolding max_id
max_id_below m [] _ = refl
max_id_below m (d ∷ ds) (p, ps) = rw p (max_id_below m ds ps)

pub missed_below : (m : ℤ) (ds : List Delivery) → IsBelow m ds → missed m ds ≡ []
unfolding missed
missed_below m [] _ = refl
missed_below m (d ∷ ds) (p, ps) = rw p (missed_below m ds ps)

pub IsBelow-larger :
    (m n : ℤ) (ds : List Delivery) → ltb_ℤ n m ≡ false → IsBelow m ds → IsBelow n ds
IsBelow-larger m n [] h _ = tt
IsBelow-larger m n (d ∷ ds) h (p, ps) = (le_trans n m d.id h p, IsBelow-larger m n ds h ps)

abbrev pub at : Text → List (Text × ℤ) → ℤ
at name cursors = or_else (lookup name cursors) (pos 0)

-- A cursor that is written moves no cursor back.
pub insert-ge :
    (name other : Text) (m : ℤ) (cursors : List (Text × ℤ))
    → ltb_ℤ (at name cursors) m ≡ true
    → ltb_ℤ (at other (insert name m cursors)) (at other cursors) ≡ false
insert-ge name other m cursors h = elim (Bool-cases (name == other)) [
  | inl p ↦
      rw (lookup-insert name other m cursors, p)
        (subst (λ k. ltb_ℤ m (at k cursors) ≡ false) ((bytes_eq.same_iff name other).0 p)
          (ltb_asym (at name cursors) m h))
  | inr p ↦ rw (lookup-insert name other m cursors, p) (ltb_irrefl (at other cursors))
]

-- A cursor that can be read.
pub last_of-at :
    (w : World) (h : Hook) (cursors : List (Text × ℤ))
    → w.cursor_fails (cursor_name h) ≡ false
    → last_of w h cursors ≡ at (cursor_name h) cursors
last_of-at w h cursors r = rw r refl

pub advanced-ge :
    (w : World) (h : Hook) (m : ℤ) (cursors : List (Text × ℤ)) (other : Text)
    → ltb_ℤ (at other (advanced w h (at (cursor_name h) cursors) m cursors)) (at other cursors)
      ≡ false
advanced-ge w h m cursors other = elim (Bool-cases (ltb_ℤ (at (cursor_name h) cursors) m)) [
  | inr p ↦ rw p (ltb_irrefl (at other cursors))
  | inl p ↦ elim (Bool-cases (w.set_cursor_fails (cursor_name h))) [
    | inl q ↦ rw (p, q) (ltb_irrefl (at other cursors))
    | inr q ↦ rw (p, q) (insert-ge (cursor_name h) other m cursors p)
  ]
]
