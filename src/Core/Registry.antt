-- ===== src/Core/Registry.antt =====
-- core/registry.go: the factories by name. A factory's value is not looked into. `none` is the panic
-- on a name that is registered twice.
use supergraph.Common.{String, string_eq, Option, none, some, List, [], ◌∷◌, is_some, if◌then◌else◌}
use supergraph.Common.Dict.{lookup, insert}
use supergraph.Common.Order.{sort_by}

module _ {F : Type 0} where
  unfoldable pub register : String → F → List (String × F) → Option (List (String × F))
  register name f factories =
      if is_some (lookup name factories) then none else some (insert name f factories)

  abbrev pub keys : List (String × F) → List String
  keys [] = []
  keys ((k, f) ∷ m) = k ∷ keys m

  unfoldable pub sorted_factory_names : List (String × F) → List String
  sorted_factory_names m = sort_by (λ k. k) (keys m)
