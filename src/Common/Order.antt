-- ===== src/Common/Order.antt =====
-- `sort.Strings`, `sort.Slice` by a name, and ORDER BY: a sort by a text that is compared byte by
-- byte.
use Prim.Native.Nat.{ℕ, compare, Ordering}
use mathlib.Core.Path.{◌≡◌, refl, sym, ◌∙◌}
use mathlib.Core.Logic.{inl, inr}
use mathlib.Core.Bool.{Bool, true, false}
use mathlib.Core.Option.{Option, none, some}
use mathlib.Core.List.{List, [], ◌∷◌, Perm}
use mathlib.Core.List.Perm
use native.Mathlib.Omega.{arith}
use Prim.Native.String.{String}
use supergraph.Common.Tests.{if◌then◌else◌, Bool-cases}
use supergraph.Common.Lists.{All}
use supergraph.Common.Equality.{◌==◌, codes, string_eq, contains}

-- Bytewise order of two texts, the shorter one first where one is a prefix of the other.
unfoldable pub lex_leb : List ℕ → List ℕ → Bool
lex_leb [] ys = true
lex_leb (x ∷ xs) [] = false
lex_leb (x ∷ xs) (y ∷ ys) =
    let rest = lex_leb xs ys in
    elim (compare x y) [ Ordering.lt ↦ true | Ordering.gt ↦ false | Ordering.eq ↦ rest ]

pub lex_leb_refl : (xs : List ℕ) → lex_leb xs xs ≡ true
unfolding lex_leb
lex_leb_refl [] = refl
lex_leb_refl (x ∷ xs) = ground (arith, lex_leb_refl xs)

pub lex_leb_total : (xs ys : List ℕ) → lex_leb xs ys ≡ false → lex_leb ys xs ≡ true
unfolding lex_leb
lex_leb_total [] ys h = cc
lex_leb_total (x ∷ xs) [] h = refl
lex_leb_total (x ∷ xs) (y ∷ ys) h = ground (arith, lex_leb_total xs ys)

pub lex_leb_trans :
    (xs ys zs : List ℕ) → lex_leb xs ys ≡ true → lex_leb ys zs ≡ true → lex_leb xs zs ≡ true
unfolding lex_leb
lex_leb_trans [] ys zs h k = refl
lex_leb_trans (x ∷ xs) [] zs h k = cc
lex_leb_trans (x ∷ xs) (y ∷ ys) [] h k = cc
lex_leb_trans (x ∷ xs) (y ∷ ys) (z ∷ zs) h k = ground (arith, lex_leb_trans xs ys zs)

abbrev pub text_leb : String → String → Bool
text_leb a b = lex_leb (codes a) (codes b)

module _ {ℓ} {A : Type ℓ} (key : A → String) where
  unfoldable pub insert_by : A → List A → List A
  insert_by x [] = x ∷ []
  insert_by x (y ∷ ys) = if text_leb (key x) (key y) then x ∷ y ∷ ys else y ∷ insert_by x ys

  unfoldable pub sort_by : List A → List A
  unfolding insert_by
  sort_by [] = []
  sort_by (x ∷ xs) = insert_by x (sort_by xs)

  abbrev pub IsSortedBy : List A → Type 0
  IsSortedBy [] = Unit
  IsSortedBy (x ∷ xs) = All (λ y. text_leb (key x) (key y) ≡ true) xs × IsSortedBy xs

  -- The first element of a name.
  unfoldable pub find_by : String → List A → Option A
  find_by k [] = none
  find_by k (x ∷ xs) = let rest = find_by k xs in if key x == k then some x else rest

  All-lower :
      (x y : A) (ys : List A)
      → text_leb (key x) (key y) ≡ true
      → All (λ z. text_leb (key y) (key z) ≡ true) ys
      → All (λ z. text_leb (key x) (key z) ≡ true) ys
  All-lower x y [] h k = tt
  All-lower x y (z ∷ zs) h k =
      (lex_leb_trans (codes (key x)) (codes (key y)) (codes (key z)) h k.0, All-lower x y zs h k.1)

  All-insert_by :
      (y x : A) (ys : List A)
      → text_leb (key y) (key x) ≡ true
      → All (λ z. text_leb (key y) (key z) ≡ true) ys
      → All (λ z. text_leb (key y) (key z) ≡ true) (insert_by x ys)
  unfolding insert_by
  All-insert_by y x [] h k = (h, tt)
  All-insert_by y x (z ∷ zs) h k = elim (Bool-cases (text_leb (key x) (key z))) [
    | inl p ↦ rw p (h, (k.0, k.1))
    | inr p ↦ rw p (k.0, All-insert_by y x zs h k.1)
  ]

  insert_by-IsSortedBy : (x : A) (ys : List A) → IsSortedBy ys → IsSortedBy (insert_by x ys)
  unfolding insert_by
  insert_by-IsSortedBy x [] h = (tt, tt)
  insert_by-IsSortedBy x (y ∷ ys) h = elim (Bool-cases (text_leb (key x) (key y))) [
    | inl p ↦ rw p ((p, All-lower x y ys p h.0), h)
    | inr p ↦ rw p (
      All-insert_by y x ys (lex_leb_total (codes (key x)) (codes (key y)) p) h.0,
      insert_by-IsSortedBy x ys h.1,
    )
  ]

  pub sort_by-IsSortedBy : (xs : List A) → IsSortedBy (sort_by xs)
  unfolding sort_by
  sort_by-IsSortedBy [] = tt
  sort_by-IsSortedBy (x ∷ xs) = insert_by-IsSortedBy x (sort_by xs) (sort_by-IsSortedBy xs)

  differ : {x y : A} → key x ≡ key y → text_leb (key x) (key y) ≡ false → ⊥
  differ {x} {y} same p = cc (rw same at p, lex_leb_refl (codes (key y)))

  -- What is inserted stands before its equals, so it is found first.
  find_by-insert_by :
      (k : String) (x : A) (ys : List A)
      → find_by k (insert_by x ys) ≡ (if key x == k then some x else find_by k ys)
  unfolding find_by insert_by
  find_by-insert_by k x [] = refl
  find_by-insert_by k x (y ∷ ys) = elim (Bool-cases (text_leb (key x) (key y))) [
    | inl p ↦ rw p
    | inr p ↦ rw p (rw (find_by-insert_by k x ys) (ordered p))
  ]
    where
      ordered :
          text_leb (key x) (key y) ≡ false
          → (if key y == k then some y else if key x == k then some x else find_by k ys)
            ≡ (if key x == k then some x else if key y == k then some y else find_by k ys)
      ordered p = elim (Bool-cases (key x == k)) [
        | inr q ↦ rw q
        | inl q ↦ elim (Bool-cases (key y == k)) [
          | inr r ↦ rw (q, r)
          | inl r ↦ absurd (
              differ
                (sym
                  ((string_eq.same_iff (key y) k).0 r ∙ sym ((string_eq.same_iff (key x) k).0 q)))
                p)
        ]
      ]

  pub find_by-sort_by : (k : String) (xs : List A) → find_by k (sort_by xs) ≡ find_by k xs
  unfolding sort_by find_by
  find_by-sort_by k [] = refl
  find_by-sort_by k (x ∷ xs) = rw (find_by-insert_by k x (sort_by xs), find_by-sort_by k xs)

  insert_by-perm : (x : A) (ys : List A) → Perm (insert_by x ys) (x ∷ ys)
  unfolding insert_by
  insert_by-perm x [] = Perm.refl _
  insert_by-perm x (y ∷ ys) = elim (Bool-cases (text_leb (key x) (key y))) [
    | inl p ↦ rw p (Perm.refl _)
    | inr p ↦ rw p (Perm.trans (Perm.cons y (insert_by-perm x ys)) (Perm.swap x y ys))
  ]

  pub sort_by-perm : (xs : List A) → Perm (sort_by xs) xs
  unfolding sort_by
  sort_by-perm [] = Perm.refl _
  sort_by-perm (x ∷ xs) = Perm.trans (insert_by-perm x (sort_by xs)) (Perm.cons x (sort_by-perm xs))

-- A sort of texts keeps which texts are there.
contains-insert_by :
    (n x : String) (ys : List String)
    → contains (insert_by (λ k. k) x ys) n ≡ (if x == n then true else contains ys n)
unfolding contains insert_by
contains-insert_by n x [] = ground arith
contains-insert_by n x (y ∷ ys) = elim (Bool-cases (text_leb x y)) [
  | inl p ↦ rw p (ground arith)
  | inr p ↦ rw p (ground (arith, contains-insert_by n x ys))
]

contains-cons :
    (n x : String) (xs : List String)
    → contains (x ∷ xs) n ≡ (if x == n then true else contains xs n)
unfolding contains
contains-cons n x xs = ground arith

pub contains-sort_by :
    (n : String) (xs : List String) → contains (sort_by (λ k. k) xs) n ≡ contains xs n
unfolding sort_by
contains-sort_by n [] = refl
contains-sort_by n (x ∷ xs) =
    rw (contains-insert_by n x (sort_by (λ k. k) xs), contains-cons n x xs, contains-sort_by n xs)
