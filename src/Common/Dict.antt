-- ===== src/Common/Dict.antt =====
-- Go's maps and the rows of a table under their primary key: association lists with one entry for
-- each key. A new key is written at the end, as a row is.
use mathlib.Core.Path.{◌≡◌, refl}
use mathlib.Core.Logic.{inl, inr}
use mathlib.Core.Option.{Option, none, some}
use mathlib.Core.Option
use mathlib.Core.List.{List, [], ◌∷◌}
use native.Mathlib.Omega.{arith}
use supergraph.Common.Tests.{if◌then◌else◌, Bool-cases}
use supergraph.Common.Equality.{Eq, ◌==◌, beq_refl}

module _ {ℓ κ} {K : Type ℓ} {V : Type κ} ⦃e : Eq K⦄ where
  unfoldable pub lookup : K → List (K × V) → Option V
  lookup key [] = none
  lookup key ((at, val) ∷ rows) = if at == key then some val else lookup key rows

  unfoldable pub insert : K → V → List (K × V) → List (K × V)
  insert key val [] = (key, val) ∷ []
  insert key val ((at, old) ∷ rows) =
      if at == key then (key, val) ∷ rows else (at, old) ∷ insert key val rows

  unfoldable pub remove : K → List (K × V) → List (K × V)
  remove key [] = []
  remove key ((at, old) ∷ rows) =
      let rest = remove key rows in if at == key then rest else (at, old) ∷ rest

  -- A statement over all rows: UPDATE with a WHERE clause is an `f` that tests its row.
  unfoldable pub update_all : (K → V → V) → List (K × V) → List (K × V)
  update_all f [] = []
  update_all f ((at, old) ∷ rows) = (at, f at old) ∷ update_all f rows

  pub lookup-insert :
      (key at : K) (val : V) (rows : List (K × V))
      → lookup at (insert key val rows) ≡ (if key == at then some val else lookup at rows)
  unfolding lookup insert
  lookup-insert key at val [] = refl
  lookup-insert key at val ((head, old) ∷ rows) = ground (
    arith,
    e.same_iff key at,
    e.same_iff head key,
    e.same_iff head at,
    lookup-insert key at val rows,
  )

  pub lookup-insert_self :
      (key : K) (val : V) (rows : List (K × V)) → lookup key (insert key val rows) ≡ some val
  lookup-insert_self key val rows = rw (lookup-insert key key val rows, beq_refl key)

  pub lookup-remove :
      (key at : K) (rows : List (K × V))
      → lookup at (remove key rows) ≡ (if key == at then none else lookup at rows)
  unfolding lookup remove
  lookup-remove key at [] = ground arith
  lookup-remove key at ((head, old) ∷ rows) =
      ground (
        arith,
        e.same_iff key at,
        e.same_iff head key,
        e.same_iff head at,
        lookup-remove key at rows,
      )

  pub lookup-update_all :
      (f : K → V → V) (at : K) (rows : List (K × V))
      → lookup at (update_all f rows) ≡ Option.map (f at) (lookup at rows)
  unfolding lookup update_all
  lookup-update_all f at [] = refl
  lookup-update_all f at ((head, old) ∷ rows) = elim (Bool-cases (head == at)) [
    | inl p ↦ rw p (rw ((e.same_iff head at).0 p))
    | inr p ↦ rw p (lookup-update_all f at rows)
  ]
