-- ===== src/Common/Json.antt =====
-- A decoded JSON value, as encoding/json gives it for `any`. A number is a float64: an integral one
-- within the range of int64 is its integer, and any other is the text that FormatFloat prints of it.
-- The fields of an object stand in the order in which a Go map would be walked.
use supergraph.Common.{Bool, Option, none, some, bytes_eq, ◌==◌, if◌then◌else◌}
use supergraph.Common.Int.{ℤ}
use supergraph.Common.Bytes.{Text}

mutual
  pub data Value : Type 0 where
    null : Value
    bool : Bool → Value
    num : ℤ → Value
    float : Text → Value
    str : Text → Value
    arr : Items → Value
    obj : Fields → Value

  pub data Items : Type 0 where
    no_item : Items
    item : Value → Items → Items

  pub data Fields : Type 0 where
    no_field : Fields
    field : Text → Value → Fields → Fields

-- The value under a name: the first, since a decoded object has a name once.
unfoldable pub get : Text → Fields → Option Value
get k no_field = none
get k (field j v fs) = let rest = get k fs in if j == k then some v else rest

-- The type assertions to string, map[string]any and []any. A missing name is nil.
abbrev pub as_str : Option Value → Option Text
as_str (some (str t)) = some t
as_str _ = none

abbrev pub as_obj : Option Value → Option Fields
as_obj (some (obj fs)) = some fs
as_obj _ = none

abbrev pub as_arr : Option Value → Option Items
as_arr (some (arr xs)) = some xs
as_arr _ = none
