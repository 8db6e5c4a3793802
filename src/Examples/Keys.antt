-- ===== src/Examples/Keys.antt =====
-- Examples for internal/issuekey and plugins/tmux/.
use supergraph.Common.{◌++◌, ◌≡◌, refl, none, some, codes, bytes_eq, bytes_eqb, arith}
use supergraph.Common.Int.{pos, negsuc}
use supergraph.Common.Bytes.{
  Lacks, has_code, has_code-Lacks_of, trim_space, trim_left, trim_right, is_space, after_prefix,
  cut, cut_last,
}
use supergraph.Common.Decimal.{InRange, read_digits, atoi}
use supergraph.IssueKey.{from_branch, match_branch, span_digits, saturated}
use supergraph.IssueKey.Branches.{dash, branch_of, from_branch_names}
use supergraph.Tmux.Keys.{pane_key, parse_pane_key, split_host}
use supergraph.Tmux.Keys.RoundTrip.{parse_pane_key-pane_key}

from_branch_names_example :
    from_branch (codes " " ++ (branch_of dash 12 (codes "/spike") ++ codes "  ")) ≡ some 12
unfolding is_space
from_branch_names_example =
    from_branch_names (codes " ") (codes "  ") dash 12 (codes "/spike") (omega arith) refl
      (refl, tt) (refl, (refl, tt))

-- The branches of the repository's own tests.
branch_tests :
    (from_branch (codes "issue1/spike-core") ≡ some 1)
    × (from_branch (codes "issue-12") ≡ some 12)
    × (from_branch (codes "issue12-foo") ≡ some 12)
    × (from_branch (codes "fix/issue3") ≡ none)
    × (from_branch (codes "myissue4") ≡ none)
    × (from_branch (codes "issue") ≡ none)
    × (from_branch (codes "issueX/1") ≡ none)
    × (from_branch (codes "issue12x") ≡ none)
unfolding from_branch match_branch after_prefix span_digits trim_space trim_left trim_right is_space
    saturated read_digits
branch_tests = (refl, refl, refl, refl, refl, refl, refl, refl)

host_clear : Lacks b'@' (codes "box")
unfolding has_code
host_clear = has_code-Lacks_of b'@' (codes "box") refl

session_clear : Lacks b':' (codes "w@1")
unfolding has_code
session_clear = has_code-Lacks_of b':' (codes "w@1") refl

in_range : InRange (pos 3) × InRange (negsuc 1)
unfolding InRange
in_range = (omega arith, omega arith)

parse_pane_key-pane_key_example :
    parse_pane_key (pane_key (codes "w@1") (pos 3) (negsuc 1) (codes "box"))
    ≡ some (record { session = codes "w@1"; window = pos 3; pane = negsuc 1; host = codes "box" })
parse_pane_key-pane_key_example =
    parse_pane_key-pane_key b'w' (codes "@1") (pos 3) (negsuc 1) b'b' (codes "ox") session_clear
      host_clear in_range.0 in_range.1

-- Keys that are no pane's.
pane_tests :
    (parse_pane_key (codes "pane:s:1.2") ≡ none)
    × (parse_pane_key (codes "session:s@h") ≡ none)
    × (parse_pane_key (codes "pane::1.2@h") ≡ none)
    × (parse_pane_key (codes "pane:s:1.x@h") ≡ none)
    × (parse_pane_key (codes "pane:s:1.2.3@h") ≡ none)
unfolding parse_pane_key split_host cut cut_last bytes_eqb has_code atoi read_digits
pane_tests = (refl, refl, refl, refl, refl)
