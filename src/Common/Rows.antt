-- ===== src/Common/Rows.antt =====
-- Rows as a query returns them: ORDER BY on a text column, and the test of whether some row passes.
use mathlib.Core.Path.{◌≡◌, refl, ap, sym, ◌∙◌}
use mathlib.Core.Bool.{Bool, false, ◌&&◌, ◌||◌}
use mathlib.Core.List.{List, [], ◌∷◌, ◌++◌, map}
use native.Mathlib.Omega.{arith}
use supergraph.Common.Tests.{if◌then◌else◌}
use supergraph.Common.Lists.{select}
use supergraph.Common.Order.{lex_leb}
use supergraph.Common.Bytes.{Text}

module _ {ℓ} {A : Type ℓ} where
  abbrev pub any : (A → Bool) → List A → Bool
  any p [] = false
  any p (x ∷ xs) = p x || any p xs

  pub any-append : (p : A → Bool) (xs ys : List A) → any p (xs ++ ys) ≡ (any p xs || any p ys)
  any-append p [] ys = refl
  any-append p (x ∷ xs) ys = ground (arith, any-append p xs ys)

  pub any-select : (p q : A → Bool) (xs : List A) → any p (select q xs) ≡ any (λ x. q x && p x) xs
  any-select p q [] = refl
  any-select p q (x ∷ xs) = ground (arith, any-select p q xs)

  pub any-cong : (p q : A → Bool) (xs : List A) → ((x : A) → p x ≡ q x) → any p xs ≡ any q xs
  any-cong p q [] h = refl
  any-cong p q (x ∷ xs) h = ground (arith, h x, any-cong p q xs h)

  pub any-false : (xs : List A) → any (λ _. false) xs ≡ false
  any-false [] = refl
  any-false (x ∷ xs) = any-false xs

  any-or : (p q : A → Bool) (xs : List A) → any (λ x. p x || q x) xs ≡ (any p xs || any q xs)
  any-or p q [] = refl
  any-or p q (x ∷ xs) = ground (arith, any-or p q xs)

  module _ (key : A → Text) where
    unfoldable pub insert_row : A → List A → List A
    insert_row x [] = x ∷ []
    insert_row x (y ∷ ys) = if lex_leb (key x) (key y) then x ∷ y ∷ ys else y ∷ insert_row x ys

    unfoldable pub order_rows : List A → List A
    order_rows [] = []
    order_rows (x ∷ xs) = insert_row x (order_rows xs)

    any-insert_row :
        (p : A → Bool) (x : A) (xs : List A) → any p (insert_row x xs) ≡ (p x || any p xs)
    unfolding insert_row
    any-insert_row p x [] = refl
    any-insert_row p x (y ∷ ys) = ground (arith, any-insert_row p x ys)

    -- The order of the rows does not matter to whether one passes.
    pub any-order_rows : (p : A → Bool) (xs : List A) → any p (order_rows xs) ≡ any p xs
    unfolding order_rows
    any-order_rows p [] = refl
    any-order_rows p (x ∷ xs) =
        any-insert_row p x (order_rows xs) ∙ ap (λ b. p x || b) (any-order_rows p xs)

pub any-map {ℓ κ} :
    {A : Type ℓ} {B : Type κ} (p : B → Bool) (f : A → B) (xs : List A)
    → any p (map f xs) ≡ any (λ x. p (f x)) xs
any-map p f [] = refl
any-map p f (x ∷ xs) = ap (λ b. p (f x) || b) (any-map p f xs)

pub any-swap {ℓ κ} :
    {A : Type ℓ} {B : Type κ} (f : A → B → Bool) (xs : List A) (ys : List B)
    → any (λ x. any (f x) ys) xs ≡ any (λ y. any (λ x. f x y) xs) ys
any-swap f [] ys = sym (any-false ys)
any-swap f (x ∷ xs) ys =
    ap (λ b. any (f x) ys || b) (any-swap f xs ys)
    ∙ sym (any-or (f x) (λ y. any (λ z. f z y) xs) ys)
