-- ===== src/IssueKey/Closing.antt =====
-- internal/issuekey/issuekey.go: ClosingRefs. The regular expression of closingRe is read as the steps
-- of a match: a step takes all that it can, and what follows it begins with no code that it takes.
use supergraph.Common.{
  ℕ, zero, suc, ◌+◌, Bool, true, false, ◌&&◌, ◌||◌, Option, none, some, List, [], ◌∷◌, codes,
  if◌then◌else◌, eqb, leb, length,
}
use supergraph.Common.Bytes.{Text}
use supergraph.Common.Decimal.{is_digit, read_nat, max_int}
use supergraph.IssueKey.{span_digits}

-- (?i), on the letters of the verbs: the long s of U+017F is an s too.
abbrev pub fold_letter : ℕ → ℕ
fold_letter c = if leb b'A' c && leb c b'Z' then c + 32 else if eqb c 0x17F then b's' else c

unfoldable pub after_word : Text → Text → Option Text
after_word [] t = some t
after_word (c ∷ w) [] = none
after_word (c ∷ w) (x ∷ t) =
    let rest = after_word w t in if eqb (fold_letter x) c then rest else none

-- [sd]?
abbrev skip_ending : Text → Text
skip_ending [] = []
skip_ending (x ∷ t) = if eqb (fold_letter x) b's' || eqb (fold_letter x) b'd' then t else x ∷ t

-- (e[sd])?
abbrev skip_es : Text → Text
skip_es [] = []
skip_es (x ∷ []) = x ∷ []
skip_es (x ∷ y ∷ t) =
    if eqb (fold_letter x) b'e' && (eqb (fold_letter y) b's' || eqb (fold_letter y) b'd')
    then t
    else x ∷ y ∷ t

abbrev or_verb : Option Text → Option Text → Option Text
or_verb (some t) other = some t
or_verb none other = other

abbrev ended : (Text → Text) → Option Text → Option Text
ended f none = none
ended f (some t) = some (f t)

-- What follows a verb: no two verbs begin alike.
unfoldable pub after_verb : Text → Option Text
after_verb t = or_verb (ended skip_ending (after_word (codes "close") t)) (
    or_verb (ended skip_es (after_word (codes "fix") t))
      (ended skip_ending (after_word (codes "resolve") t)))

-- \s
abbrev is_blank : ℕ → Bool
is_blank c = eqb c 32 || eqb c 9 || eqb c 10 || eqb c 12 || eqb c 13

unfoldable skip_blanks : Text → Text
skip_blanks [] = []
skip_blanks (c ∷ t) = let rest = skip_blanks t in if is_blank c then rest else c ∷ t

-- [\w.-]: (?i) adds the long s and the Kelvin sign.
abbrev is_name_code : ℕ → Bool
is_name_code c =
    leb b'A' c && leb c b'Z'
    || leb b'a' c && leb c b'z'
    || is_digit c
    || eqb c b'_'
    || eqb c b'.'
    || eqb c b'-'
    || eqb c 0x17F
    || eqb c 0x212A

unfoldable skip_name : Text → Text
skip_name [] = []
skip_name (c ∷ t) = let rest = skip_name t in if is_name_code c then rest else c ∷ t

abbrev starts_name : Text → Bool
starts_name [] = false
starts_name (c ∷ t) = is_name_code c

-- A code that must stand there, and what follows it.
abbrev after_code : ℕ → Text → Option Text
after_code c [] = none
after_code c (x ∷ t) = if eqb x c then some t else none

abbrev after_repo : Option Text → Option Text
after_repo none = none
after_repo (some t) = if starts_name t then after_code b'#' (skip_name t) else none

-- [\w.-]+/[\w.-]+#
unfoldable pub after_scope : Text → Option Text
unfolding skip_name
after_scope t = if starts_name t then after_repo (after_code b'/' (skip_name t)) else none

-- A match: whether its third group is "#", the digits of its fourth, and what follows it.
pub record Ref : Type 0 where
  pub is_local : Bool
  pub number : Text
  pub rest : Text

abbrev ref_of : Bool → Text × Text → Option Ref
ref_of is_local ([], rest) = none
ref_of is_local (d ∷ ds, rest) = some (record { is_local = is_local; number = d ∷ ds; rest = rest })

abbrev numbered : Bool → Option Text → Option Ref
numbered is_local none = none
numbered is_local (some t) = ref_of is_local (span_digits t)

abbrev or_scoped : Text → Option Text → Option Ref
or_scoped t (some u) = numbered true (some u)
or_scoped t none = numbered false (after_scope t)

abbrev referred : Text → Option Ref
referred [] = none
referred (c ∷ t) =
    if is_blank c then or_scoped (skip_blanks t) (after_code b'#' (skip_blanks t)) else none

abbrev after_verb_ref : Option Text → Option Ref
after_verb_ref none = none
after_verb_ref (some t) = referred t

-- The match at the head of a text.
unfoldable pub match_closing : Text → Option Ref
unfolding skip_blanks
match_closing t = after_verb_ref (after_verb t)

-- FindAllStringSubmatch: the next match is sought behind the last one. A step drops a code at least,
-- so that the length of the text is fuel enough.
abbrev next_ref : (Text → List Ref) → Text → Option Ref → List Ref
next_ref find t none = find t
next_ref find t (some m) = m ∷ find m.rest

unfoldable pub find_all : ℕ → Text → List Ref
find_all zero t = []
find_all (suc fuel) [] = []
find_all (suc fuel) (c ∷ t) = next_ref (find_all fuel) t (match_closing (c ∷ t))

abbrev pub local_number : Option ℕ → List ℕ → List ℕ
local_number none out = out
local_number (some n) out = if leb n max_int then n ∷ out else out

unfoldable pub local_numbers : List Ref → List ℕ
local_numbers [] = []
local_numbers (m ∷ ms) =
    let rest = local_numbers ms in
    if m.is_local then local_number (read_nat m.number) rest else rest

unfoldable pub closing_refs : Text → List ℕ
unfolding find_all local_numbers
closing_refs t = local_numbers (find_all (suc (length t)) t)
