-- ===== src/Graph/Unseen.antt =====
-- The loops of graph/github_map.go that keep the first row of each key: `seen`, and the rows kept.
use supergraph.Common.{
  ◌≡◌, refl, ap, sym, ◌∙◌, Bool, true, false, ◌||◌, List, [], ◌∷◌, ◌++◌, Eq, ◌==◌, beq_sym,
  contains, if◌then◌else◌, arith, map, Bool-cases, inl, inr,
}
use mathlib.Core.Path.{subst}
use supergraph.Common.Rows.{any, any-append, any-map}

module _ {ℓ κ} {A : Type ℓ} {K : Type κ} ⦃e : Eq K⦄ (key : A → K) where
  abbrev pub keep_unseen : A → List K × List A → List K × List A
  keep_unseen x (seen, out) =
      if contains seen (key x) then (seen, out) else (key x ∷ seen, out ++ x ∷ [])

  unfoldable pub add_unseen : List A → List K × List A → List K × List A
  add_unseen [] st = st
  add_unseen (x ∷ xs) st = add_unseen xs (keep_unseen x st)

  -- Some row has the key.
  abbrev pub has_row : K → List A → Bool
  has_row k = any (λ x. key x == k)

  -- No two rows have one key.
  abbrev pub IsDistinct : List A → Type κ
  IsDistinct [] = Unit
  IsDistinct (x ∷ xs) = (has_row (key x) xs ≡ false) × IsDistinct xs

  -- What is seen is what is kept, once each.
  abbrev pub IsKept : List K × List A → Type κ
  IsKept st = ((k : K) → contains st.0 k ≡ has_row k st.1) × IsDistinct st.1

  IsDistinct-append :
      (xs : List A) (x : A) → IsDistinct xs → has_row (key x) xs ≡ false → IsDistinct (xs ++ x ∷ [])
  IsDistinct-append [] x _ _ = (refl, tt)
  IsDistinct-append (y ∷ ys) x (d, ds) h = (
    any-append (λ z. key z == key y) ys (x ∷ []) ∙ ground (arith, d, h, beq_sym (key x) (key y)),
    IsDistinct-append ys x ds (ground (arith, h)),
  )

  contains-cons : (k j : K) (seen : List K) → contains (j ∷ seen) k ≡ ((j == k) || contains seen k)
  unfolding contains
  contains-cons k j seen = ground arith

  has_row-append :
      (k : K) (out : List A) (x : A) → has_row k (out ++ x ∷ []) ≡ (has_row k out || (key x == k))
  has_row-append k out x = any-append (λ z. key z == k) out (x ∷ []) ∙ ground arith

  keep_unseen-IsKept : (x : A) (st : List K × List A) → IsKept st → IsKept (keep_unseen x st)
  keep_unseen-IsKept x (seen, out) (same, d) = elim (Bool-cases (contains seen (key x))) [
    | inl old ↦ rw old (same, d)
    | inr new ↦ rw new (
      λ k. contains-cons k (key x) seen ∙ sym (has_row-append k out x ∙ ground (arith, same k)),
      IsDistinct-append out x d (sym (same (key x)) ∙ new),
    )
  ]

  pub add_unseen-IsKept :
      (xs : List A) (st : List K × List A) → IsKept st → IsKept (add_unseen xs st)
  unfolding add_unseen
  add_unseen-IsKept [] st v = v
  add_unseen-IsKept (x ∷ xs) st v =
      add_unseen-IsKept xs (keep_unseen x st) (keep_unseen-IsKept x st v)

  contains-keep_unseen :
      (k : K) (x : A) (st : List K × List A)
      → contains (keep_unseen x st).0 k ≡ ((key x == k) || contains st.0 k)
  contains-keep_unseen k x (seen, out) = elim (Bool-cases (contains seen (key x))) [
    | inl old ↦ rw old (elim (Bool-cases (key x == k)) [
      | inl p ↦ rw p (subst (λ j. contains seen j ≡ true) ((e.same_iff (key x) k).0 p) old)
      | inr p ↦ rw p refl
    ])
    | inr new ↦ rw new (contains-cons k (key x) seen)
  ]

  pub contains-add_unseen :
      (k : K) (xs : List A) (st : List K × List A)
      → contains (add_unseen xs st).0 k ≡ (has_row k xs || contains st.0 k)
  unfolding add_unseen
  contains-add_unseen k [] st = refl
  contains-add_unseen k (x ∷ xs) st =
      contains-add_unseen k xs (keep_unseen x st)
      ∙ ap (λ b. has_row k xs || b) (contains-keep_unseen k x st)
      ∙ ground arith

  -- The rows that are kept of one list: a row for each key that it has, once.
  pub has_row-add_unseen :
      (k : K) (xs : List A) (st : List K × List A)
      → IsKept st
      → has_row k (add_unseen xs st).1 ≡ (has_row k xs || has_row k st.1)
  has_row-add_unseen k xs st v =
      sym ((add_unseen-IsKept xs st v).0 k)
      ∙ contains-add_unseen k xs st
      ∙ ap (λ b. has_row k xs || b) (v.0 k)

pub IsDistinct-map {ℓ κ ι} :
    {A : Type ℓ} {B : Type ι} {K : Type κ} ⦃e : Eq K⦄ (f : A → B) (key : B → K) (xs : List A)
    → IsDistinct (λ x. key (f x)) xs
    → IsDistinct key (map f xs)
IsDistinct-map f key [] _ = tt
IsDistinct-map f key (x ∷ xs) (d, ds) =
    (any-map (λ y. key y == key (f x)) f xs ∙ d, IsDistinct-map f key xs ds)
