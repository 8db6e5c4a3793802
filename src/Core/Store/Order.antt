-- ===== src/Core/Store/Order.antt =====
-- ORDER BY id DESC and the pruning of the ring, for core/store.go.
use supergraph.Common.{
  ℕ, zero, suc, ◌<◌, ◌≡◌, refl, ◌∙◌, Bool, false, List, [], ◌∷◌, ◌++◌, arith, ltb, nat_eq, eqb_iff,
  if◌then◌else◌, Bool-cases, inl, inr, take, select, contains, All,
}
use supergraph.Core.Store.{EventRow, insert_desc, order_desc, ids, prune_rows}

module _ {Stamp : Type 0} where
  abbrev pub Below : ℕ → List (EventRow Stamp) → Type 0
  Below n rows = All (λ (r : EventRow Stamp). r.id < n) rows

  -- Newest first, no id twice.
  abbrev pub IsDescending : List (EventRow Stamp) → Type 0
  IsDescending [] = Unit
  IsDescending (r ∷ rs) = Below r.id rs × IsDescending rs

  Below-insert_desc :
      (n : ℕ) (r : EventRow Stamp) (rs : List (EventRow Stamp))
      → r.id < n
      → Below n rs
      → Below n (insert_desc r rs)
  unfolding insert_desc
  Below-insert_desc n r [] h k = (h, tt)
  Below-insert_desc n r (q ∷ qs) h k = elim (Bool-cases (ltb r.id q.id)) [
    | inl p ↦ rw (p, All) (k.0, Below-insert_desc n r qs h k.1)
    | inr p ↦ rw (p, All) (h, (k.0, k.1))
  ]

  pub Below-order_desc : (n : ℕ) (rs : List (EventRow Stamp)) → Below n rs → Below n (order_desc rs)
  unfolding order_desc
  Below-order_desc n [] h = tt
  Below-order_desc n (r ∷ rs) h =
      Below-insert_desc n r (order_desc rs) h.0 (Below-order_desc n rs h.1)

  -- A row newer than all others comes first.
  pub order_desc-append :
      (rs : List (EventRow Stamp)) (r : EventRow Stamp)
      → Below r.id rs
      → order_desc (rs ++ r ∷ []) ≡ r ∷ order_desc rs
  unfolding order_desc insert_desc
  order_desc-append [] r h = refl
  order_desc-append (q ∷ qs) r h = rw (order_desc-append qs r h.1) (ground (arith, h.0))

  insert_desc_front :
      (r : EventRow Stamp) (rs : List (EventRow Stamp))
      → All (λ (q : EventRow Stamp). ltb r.id q.id ≡ false) rs
      → insert_desc r rs ≡ r ∷ rs
  unfolding insert_desc
  insert_desc_front r [] h = refl
  insert_desc_front r (q ∷ qs) h = rw h.0

  abbrev IsOrdered : List (EventRow Stamp) → Type 0
  IsOrdered [] = Unit
  IsOrdered (r ∷ rs) = All (λ (q : EventRow Stamp). ltb r.id q.id ≡ false) rs × IsOrdered rs

  All-insert_desc :
      (q r : EventRow Stamp) (rs : List (EventRow Stamp))
      → ltb q.id r.id ≡ false
      → All (λ (x : EventRow Stamp). ltb q.id x.id ≡ false) rs
      → All (λ (x : EventRow Stamp). ltb q.id x.id ≡ false) (insert_desc r rs)
  unfolding insert_desc
  All-insert_desc q r [] h k = (h, tt)
  All-insert_desc q r (x ∷ xs) h k = elim (Bool-cases (ltb r.id x.id)) [
    | inl p ↦ rw (p, All) (k.0, All-insert_desc q r xs h k.1)
    | inr p ↦ rw (p, All) (h, (k.0, k.1))
  ]

  All-later :
      (r q : EventRow Stamp) (rs : List (EventRow Stamp))
      → ltb r.id q.id ≡ false
      → All (λ (x : EventRow Stamp). ltb q.id x.id ≡ false) rs
      → All (λ (x : EventRow Stamp). ltb r.id x.id ≡ false) rs
  All-later r q [] h k = tt
  All-later r q (x ∷ xs) h k = (ground (arith, k.0), All-later r q xs h k.1)

  insert_desc-IsOrdered :
      (r : EventRow Stamp) (rs : List (EventRow Stamp))
      → IsOrdered rs
      → IsOrdered (insert_desc r rs)
  unfolding insert_desc
  insert_desc-IsOrdered r [] h = (tt, tt)
  insert_desc-IsOrdered r (q ∷ qs) h = elim (Bool-cases (ltb r.id q.id)) [
    | inl p ↦
        rw (p, IsOrdered)
          (All-insert_desc q r qs (ground arith) h.0, insert_desc-IsOrdered r qs h.1)
    | inr p ↦ rw (p, IsOrdered) ((p, All-later r q qs p h.0), (h.0, h.1))
  ]

  order_desc-IsOrdered : (rs : List (EventRow Stamp)) → IsOrdered (order_desc rs)
  unfolding order_desc
  order_desc-IsOrdered [] = tt
  order_desc-IsOrdered (r ∷ rs) = insert_desc-IsOrdered r (order_desc rs) (order_desc-IsOrdered rs)

  All-select :
      (P : EventRow Stamp → Type 0) (p : EventRow Stamp → Bool) (rs : List (EventRow Stamp))
      → All P rs
      → All P (select p rs)
  All-select P p [] h = tt
  All-select P p (r ∷ rs) h = elim (Bool-cases (p r)) [
    | inl e ↦ rw (e, All) (h.0, All-select P p rs h.1)
    | inr e ↦ rw (e, All) (All-select P p rs h.1)
  ]

  select-insert_desc :
      (p : EventRow Stamp → Bool) (r : EventRow Stamp) (rs : List (EventRow Stamp))
      → IsOrdered rs
      → select p (insert_desc r rs) ≡ (if p r then insert_desc r (select p rs) else select p rs)
  unfolding insert_desc
  select-insert_desc p r [] h = refl
  select-insert_desc p r (q ∷ qs) h = elim (Bool-cases (ltb r.id q.id)) [
    | inl e ↦ rw (e, select) (ground (arith, select-insert_desc p r qs h.1))
    | inr e ↦
        rw (e, select)
          (ground (
            arith,
            insert_desc_front r (select p (q ∷ qs))
                (All-select _ p (q ∷ qs) (e, All-later r q qs e h.0)),
          ))
  ]

  order_desc-select :
      (p : EventRow Stamp → Bool) (rs : List (EventRow Stamp))
      → order_desc (select p rs) ≡ select p (order_desc rs)
  unfolding order_desc
  order_desc-select p [] = refl
  order_desc-select p (r ∷ rs) =
      rw (select-insert_desc p r (order_desc rs) (order_desc-IsOrdered rs))
        (ground (arith, order_desc-select p rs))

  select_newer :
      (i : ℕ) (is : List ℕ) (rs : List (EventRow Stamp))
      → Below i rs
      → select (λ r. contains (i ∷ is) r.id) rs ≡ select (λ r. contains is r.id) rs
  unfolding contains
  select_newer i is [] h = refl
  select_newer i is (r ∷ rs) h = ground (arith, select_newer i is rs h.1, eqb_iff i r.id, h.0)

  select_none : (rs : List (EventRow Stamp)) → select (λ r. contains {A = ℕ} [] r.id) rs ≡ []
  unfolding contains
  select_none [] = refl
  select_none (r ∷ rs) = select_none rs

  -- The rows whose ids are among the first `c` are the first `c`.
  select_newest :
      (c : ℕ) (rs : List (EventRow Stamp))
      → IsDescending rs
      → select (λ r. contains (ids (take c rs)) r.id) rs ≡ take c rs
  unfolding contains
  select_newest zero rs h = select_none rs
  select_newest (suc c) [] h = refl
  select_newest (suc c) (r ∷ rs) h =
      ground (
        arith,
        select_newer r.id (ids (take c rs)) rs h.0,
        select_newest c rs h.1,
        eqb_iff r.id r.id,
      )

  pub order_desc-prune_rows :
      (c : ℕ) (rs : List (EventRow Stamp))
      → IsDescending (order_desc rs)
      → order_desc (prune_rows c rs) ≡ take c (order_desc rs)
  unfolding prune_rows
  order_desc-prune_rows c rs h = order_desc-select _ rs ∙ select_newest c (order_desc rs) h

  pub Below-prune_rows :
      (n c : ℕ) (rs : List (EventRow Stamp)) → Below n rs → Below n (prune_rows c rs)
  unfolding prune_rows
  Below-prune_rows n c rs h = All-select _ _ rs h

  pub Below-take : (n c : ℕ) (rs : List (EventRow Stamp)) → Below n rs → Below n (take c rs)
  Below-take n zero rs h = tt
  Below-take n (suc c) [] h = tt
  Below-take n (suc c) (r ∷ rs) h = (h.0, Below-take n c rs h.1)

  pub take-IsDescending :
      (c : ℕ) (rs : List (EventRow Stamp)) → IsDescending rs → IsDescending (take c rs)
  take-IsDescending zero rs h = tt
  take-IsDescending (suc c) [] h = tt
  take-IsDescending (suc c) (r ∷ rs) h = (Below-take r.id c rs h.0, take-IsDescending c rs h.1)
