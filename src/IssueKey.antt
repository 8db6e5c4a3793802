-- ===== src/IssueKey.antt =====
-- internal/issuekey/issuekey.go: the issue number in the name of a branch. The regular expression
-- of branchRe is read as the steps of its only match.
pub mod Branches
pub mod Closing
use supergraph.Common.{
  ℕ, ◌≤◌, ◌≡◌, Bool, true, false, ◌||◌, Option, none, some, List, [], ◌∷◌, codes, if◌then◌else◌,
  eqb, leb,
}
use supergraph.Common.Bytes.{Text, after_prefix, trim_space}
use supergraph.Common.Decimal.{is_digit, read_nat, max_int}

-- (\d+), with what follows it. No text is a number of no digits.
abbrev one_more : ℕ → Text × Text → Text × Text
one_more c (ds, rest) = (c ∷ ds, rest)

unfoldable pub span_digits : Text → Text × Text
span_digits [] = ([], [])
span_digits (c ∷ t) =
    let more = one_more c (span_digits t) in if is_digit c then more else ([], c ∷ t)

-- -?
abbrev skip_dash : Text → Text
skip_dash [] = []
skip_dash (c ∷ t) = if eqb c b'-' then t else c ∷ t

-- ([/-]|$)
abbrev pub ends_key : Text → Bool
ends_key [] = true
ends_key (c ∷ t) = eqb c b'/' || eqb c b'-'

abbrev bounded : Text × Text → Option Text
bounded ([], rest) = none
bounded (d ∷ ds, rest) = if ends_key rest then some (d ∷ ds) else none

abbrev pub number_of : Option Text → Option Text
number_of none = none
number_of (some t) = bounded (span_digits (skip_dash t))

-- The digits that branchRe captures.
unfoldable pub match_branch : Text → Option Text
match_branch t = number_of (after_prefix (codes "issue") t)

-- strconv.Atoi of digits, its error ignored: a number that is too large is the largest int.
unfoldable pub saturated : Option ℕ → ℕ
saturated none = 0
saturated (some n) = if leb n max_int then n else max_int

abbrev from_match : Option Text → Option ℕ
from_match none = none
from_match (some ds) = some (saturated (read_nat ds))

unfoldable pub from_branch : Text → Option ℕ
from_branch branch = from_match (match_branch (trim_space branch))
