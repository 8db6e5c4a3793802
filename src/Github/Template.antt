-- ===== src/Github/Template.antt =====
-- plugins/github/executor.go: the templates of the named operations, and the objects of an answer.
use supergraph.Common.{
  ℕ, zero, suc, ◌-◌, Bool, true, false, ◌&&◌, Option, none, some, List, [], ◌∷◌, ◌++◌, codes,
  bytes_eq, ◌==◌, if◌then◌else◌, eqb, length, is_some, String,
}
use supergraph.Common.Bytes.{Text, after_prefix, starts, trim_space}
use supergraph.Common.Dict.{insert}
use supergraph.Common.Json.{
  Value, null, bool, num, float, str, arr, obj, Items, no_item, item, Fields, no_field, field, get,
}
use supergraph.Common.Split.{split}
use supergraph.Github.Names.{Parts, fill, is_letter, coerce}

pub record NamedOp : Type 0 where
  pub name : Text
  pub scope : Text
  pub keys : List Text
  pub query : Text

abbrev pub header : String → Text → Option Text
header name line = after_prefix (codes name) line

abbrev scope_line : Text → NamedOp → Option Text → Option Text → NamedOp
scope_line t op (some v) _ = record op { scope = trim_space v }
scope_line t op none (some v) = record op { keys = op.keys ++ trim_space v ∷ [] }
scope_line t op none none = op

abbrev op_line : Text → NamedOp → Option Text → NamedOp
op_line t op (some v) = record op { name = trim_space v }
op_line t op none = scope_line t op (header "# scope:" t) (header "# keys:" t)

-- One line of the header of a file.
unfoldable pub read_line : Text → NamedOp → NamedOp
read_line line op = op_line (trim_space line) op (header "# op:" (trim_space line))

unfoldable pub read_lines : List Text → NamedOp → NamedOp
read_lines [] op = op
read_lines (line ∷ lines) op = read_lines lines (read_line line op)

unfoldable pub read_op : Text → NamedOp
read_op file =
    read_lines (split b'\n' file) (record { name = []; scope = []; keys = []; query = file })

abbrev add_op : NamedOp → List (Text × NamedOp) → List (Text × NamedOp)
add_op op ops = if op.name == [] then ops else insert op.name op ops

-- The files that can be read, in the order of their names.
unfoldable pub load_ops : List Text → List (Text × NamedOp) → List (Text × NamedOp)
load_ops [] ops = ops
load_ops (file ∷ files) ops = load_ops files (add_op (read_op file) ops)

-- The names in braces, in their order: `placeholders` outside of braces, `placeholder_name` behind a
-- brace and the letters that were read since.
abbrev cons_name : Text → List Text → List Text
cons_name [] names = names
cons_name (c ∷ name) names = (c ∷ name) ∷ names

unfoldable mutual
  pub placeholders : Text → List Text
  placeholders [] = []
  placeholders (c ∷ t) =
      let inside = placeholder_name [] t in
      let outside = placeholders t in if eqb c b'{' then inside else outside

  pub placeholder_name : Text → Text → List Text
  placeholder_name name [] = []
  placeholder_name name (c ∷ t) =
      let more = placeholder_name (name ++ c ∷ []) t in
      let again = placeholder_name [] t in
      let done = cons_name name (placeholders t) in
      let broken = placeholders t in
      if is_letter c
      then more
      else if eqb c b'}'
      then done
      else if eqb c b'{'
      then again
      else broken

-- strings.ReplaceAll: `skip` counts what is left of a match.
unfoldable pub replace_from : Text → Text → ℕ → Text → Text
replace_from old new skip [] = []
replace_from old new zero (c ∷ t) =
    let matched = new ++ replace_from old new (length old - 1) t in
    let kept = c ∷ replace_from old new zero t in if starts old (c ∷ t) then matched else kept
replace_from old new (suc skip) (c ∷ t) = replace_from old new skip t

abbrev pub replace_all : Text → Text → Text → Text
replace_all old new t = replace_from old new 0 t

unfoldable pub has_all : Fields → List Text → Bool
has_all m [] = true
has_all m (f ∷ fields) = is_some (get f m) && has_all m fields

abbrev pub cons_if : Bool → Fields → List Fields → List Fields
cons_if true m ms = m ∷ ms
cons_if false m ms = ms

-- The objects of a value that carry all of some fields, the outer one first.
unfoldable mutual
  pub collect_objects : Value → List Text → List Fields
  collect_objects (obj m) fields = cons_if (has_all m fields) m (collect_fields m fields)
  collect_objects (arr xs) fields = collect_items xs fields
  collect_objects null fields = []
  collect_objects (bool b) fields = []
  collect_objects (num n) fields = []
  collect_objects (float t) fields = []
  collect_objects (str t) fields = []

  pub collect_items : Items → List Text → List Fields
  collect_items no_item fields = []
  collect_items (item v vs) fields = collect_objects v fields ++ collect_items vs fields

  pub collect_fields : Fields → List Text → List Fields
  collect_fields no_field fields = []
  collect_fields (field k v fs) fields = collect_objects v fields ++ collect_fields fs fields

module _ (print_other : Value → Text) where
  unfoldable pub coerced : Fields → Parts
  coerced no_field = []
  coerced (field k v fs) = (k, coerce print_other (some v)) ∷ coerced fs

  unfoldable pub substitute : Text → Fields → Text
  substitute template vars = fill (coerced vars) template

  abbrev pub braced : Text → Text
  braced f = b'{' ∷ f ++ b'}' ∷ []

  -- The key of an object, field by field.
  unfoldable pub object_key : Text → List Text → Fields → Text
  object_key key [] object = key
  object_key key (f ∷ fields) object =
      object_key (replace_all (braced f) (coerce print_other (get f object)) key) fields object
