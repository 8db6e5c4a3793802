-- ===== src/Common/Choose.antt =====
-- A loop that keeps the best of the elements that pass a test, the first of equals.
use mathlib.Core.Path.{◌≡◌, refl, subst}
use mathlib.Core.Logic.{◌⊎◌, inl, inr}
use mathlib.Core.Bool.{Bool, true, false}
use mathlib.Core.Option.{Option, none, some}
use mathlib.Core.List.{List, [], ◌∷◌}
use supergraph.Common.Tests.{if◌then◌else◌, Bool-cases}

module _ {A : Type 0} where
  -- The element is one of the list.
  abbrev pub Among : A → List A → Type 0
  Among x [] = ⊥
  Among x (y ∷ ys) = (y ≡ x) ⊎ Among x ys

  module _ (test : A → Bool) (better : A → A → Bool) where
    abbrev pub pick : Option A → A → Option A
    pick none x = some x
    pick (some b) x = if better x b then some x else some b

    unfoldable pub choose : Option A → List A → Option A
    choose best [] = best
    choose best (x ∷ xs) = choose (if test x then pick best x else best) xs

    -- The result is one of `P` that passes and that none which passes is better than, or none passes.
    abbrev pub IsBest : (A → Type 0) → Option A → Type 0
    IsBest P none = (x : A) → P x → test x ≡ false
    IsBest P (some b) = P b × (test b ≡ true) × ((x : A) → P x → test x ≡ true → better x b ≡ false)

    -- What is no better than an element is no better than one that is better still.
    abbrev pub IsOrder : Type 0
    IsOrder =
        ((x : A) → better x x ≡ false)
        × ((x b y : A) → better x b ≡ true → better y b ≡ false → better y x ≡ false)

    IsBest-same :
        (P Q : A → Type 0) (r : Option A)
        → ((x : A) → P x → Q x)
        → ((x : A) → Q x → P x)
        → IsBest P r
        → IsBest Q r
    IsBest-same P Q none to from v = λ x q. v x (from x q)
    IsBest-same P Q (some b) to from (m, t, v) = (to b m, t, λ x q. v x (from x q))

    abbrev Plus : (A → Type 0) → A → A → Type 0
    Plus P x y = P y ⊎ (x ≡ y)

    passes_not : (x y : A) → test x ≡ false → x ≡ y → test y ≡ false
    passes_not x y h e = subst (λ z. test z ≡ false) e h

    pick-IsBest :
        IsOrder
        → (P : A → Type 0) (best : Option A) (x : A) → IsBest P best
        → IsBest (Plus P x) (if test x then pick best x else best)
    pick-IsBest (irr, keep) P none x v = elim (Bool-cases (test x)) [
      | inl t ↦ rw t (
        inr refl,
        t,
        λ y p h. elim p [
          | inl m ↦ absurd (let e = v y m in cc)
          | inr e ↦ subst (λ z. better z x ≡ false) e (irr x)
        ],
      )
      | inr t ↦ rw t (λ y p. elim p [ inl m ↦ v y m | inr e ↦ passes_not x y t e ])
    ]
    pick-IsBest (irr, keep) P (some b) x (m, tb, v) = elim (Bool-cases (test x)) [
      | inr t ↦ rw t (
        inl m,
        tb,
        λ y p h. elim p [ inl q ↦ v y q h | inr e ↦ absurd (let f = passes_not x y t e in cc) ],
      )
      | inl t ↦ elim (Bool-cases (better x b)) [
        | inl up ↦
            rw (t, up)
              (
                inr refl,
                t,
                λ y p h. elim p [
                  | inl q ↦ keep x b y up (v y q h)
                  | inr e ↦ subst (λ z. better z x ≡ false) e (irr x)
                ],
              )
        | inr low ↦
            rw (t, low)
              (
                inl m,
                tb,
                λ y p h. elim p [ inl q ↦ v y q h | inr e ↦ subst (λ z. better z b ≡ false) e low ],
              )
      ]
    ]

    pub choose-IsBest :
        IsOrder
        → (P : A → Type 0) (best : Option A) (xs : List A) → IsBest P best
        → IsBest (λ y. P y ⊎ Among y xs) (choose best xs)
    unfolding choose
    choose-IsBest o P best [] v =
        IsBest-same P (λ y. P y ⊎ ⊥) best (λ x p. inl p)
          (λ x q. elim q [ inl p ↦ p | inr e ↦ absurd e ]) v
    choose-IsBest o P best (x ∷ xs) v =
        let next = if test x then pick best x else best in
        IsBest-same (λ y. Plus P x y ⊎ Among y xs) (λ y. P y ⊎ ((x ≡ y) ⊎ Among y xs))
          (choose next xs)
          (λ y q. elim q [ inl (inl p) ↦ inl p | inl (inr e) ↦ inr (inl e) | inr m ↦ inr (inr m) ])
          (λ y q. elim q [ inl p ↦ inl (inl p) | inr (inl e) ↦ inl (inr e) | inr (inr m) ↦ inr m ])
          (choose-IsBest o (Plus P x) next xs (pick-IsBest o P best x v))
