-- ===== src/Github/Names.antt =====
-- plugins/github/keys.go and executor.go: what a path may hold, and the templates of keys and paths.
use supergraph.Common.{
  ℕ, ◌+◌, ◌-◌, ◌/◌, ◌%◌, Bool, true, false, ◌&&◌, ◌||◌, not, Option, none, some, List, [], ◌∷◌,
  ◌++◌, codes, bytes_eq, if◌then◌else◌, eqb, leb, ltb,
}
use supergraph.Common.Dict.{lookup}
use supergraph.Common.Bytes.{Text, has_part}
use supergraph.Common.Decimal.{is_digit, print_int}
use supergraph.Common.Json.{Value, null, bool, num, float, str, arr, obj}

abbrev pub is_letter : ℕ → Bool
is_letter c = (leb b'A' c && leb c b'Z') || (leb b'a' c && leb c b'z')

-- [A-Za-z0-9_.-]
abbrev pub is_name_code : ℕ → Bool
is_name_code c = is_letter c || is_digit c || eqb c b'_' || eqb c b'.' || eqb c b'-'

unfoldable pub all_codes : (ℕ → Bool) → Text → Bool
all_codes p [] = true
all_codes p (c ∷ t) = p c && all_codes p t

-- The empty name is allowed, as for the kinds without a repository.
unfoldable pub safe_name : Text → Bool
safe_name [] = true
safe_name (c ∷ s) = all_codes is_name_code (c ∷ s) && not (has_part (b'.' ∷ b'.' ∷ []) (c ∷ s))

-- The values that a template's names stand for.
abbrev pub Parts : Type 0
Parts = List (Text × Text)

-- What stands for a name in braces that is read to its end. An empty name is no placeholder.
abbrev pub filled : Text → Option Text → Text
filled name none = b'{' ∷ name ++ b'}' ∷ []
filled name (some v) = v

abbrev close_name : Parts → Text → Text
close_name parts [] = b'{' ∷ b'}' ∷ []
close_name parts (c ∷ name) = filled (c ∷ name) (lookup (c ∷ name) parts)

-- ReplaceAllStringFunc of \{([a-zA-Z]+)\}: `fill` outside of braces, `fill_name` behind a brace and
-- the letters that were read since.
unfoldable mutual
  pub fill : Parts → Text → Text
  fill parts [] = []
  fill parts (c ∷ t) =
      let inside = fill_name parts [] t in
      let outside = c ∷ fill parts t in if eqb c b'{' then inside else outside

  pub fill_name : Parts → Text → Text → Text
  fill_name parts name [] = b'{' ∷ name
  fill_name parts name (c ∷ t) =
      let more = fill_name parts (name ++ c ∷ []) t in
      let again = (b'{' ∷ name) ++ fill_name parts [] t in
      let done = close_name parts name ++ fill parts t in
      let broken = (b'{' ∷ name) ++ c ∷ fill parts t in
      if is_letter c
      then more
      else if eqb c b'}'
      then done
      else if eqb c b'{'
      then again
      else broken

-- url.PathEscape: the codes of a path segment that stay, and the others as %XX, byte for byte. A
-- text is taken as its bytes here.
abbrev pub stays : ℕ → Bool
stays c =
    is_letter c
    || is_digit c
    || eqb c b'-'
    || eqb c b'_'
    || eqb c b'.'
    || eqb c b'~'
    || eqb c b'$'
    || eqb c b'&'
    || eqb c b'+'
    || eqb c b'='
    || eqb c b':'
    || eqb c b'@'

abbrev pub hex_digit : ℕ → ℕ
hex_digit d = if ltb d 10 then b'0' + d else b'A' + (d - 10)

unfoldable pub path_escape : Text → Text
path_escape [] = []
path_escape (c ∷ t) =
    let rest = path_escape t in
    if stays c then c ∷ rest else b'%' ∷ hex_digit (c / 16) ∷ hex_digit (c % 16) ∷ rest

-- A JSON value in a key. An object or an array prints as `fmt` prints it, which is left open.
module _ (print_other : Value → Text) where
  unfoldable pub coerce : Option Value → Text
  coerce none = []
  coerce (some null) = []
  coerce (some (bool true)) = codes "true"
  coerce (some (bool false)) = codes "false"
  coerce (some (num n)) = print_int n
  coerce (some (float t)) = t
  coerce (some (str t)) = t
  coerce (some (arr xs)) = print_other (arr xs)
  coerce (some (obj fs)) = print_other (obj fs)
