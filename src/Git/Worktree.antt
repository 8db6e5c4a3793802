-- ===== src/Git/Worktree.antt =====
-- plugins/git/worktree.go: what git prints, read. A text is the list of its codes.
pub mod Porcelain
pub mod RoundTrip
use supergraph.Common.{
  ℕ, ◌≡◌, Bool, true, false, Option, none, some, List, [], ◌∷◌, ◌++◌, codes, bytes_eq, bytes_eqb,
  ◌==◌, if◌then◌else◌, or_else,
}
use supergraph.Common.Int.{ℤ}
use supergraph.Common.Bytes.{Text, cut, has_part, after_prefix, trim_space}
use supergraph.Common.Decimal.{atoi}
use supergraph.Common.Split.{
  split, fields, trim_right_of, trim_left_of, trim_suffix, equal_fold, clean, base_of_clean,
}

-- `ahead` and `behind` are set by the reconcile, on the row.
pub record Worktree : Type 0 where
  pub path : Text
  pub branch : Text
  pub head : Text
  pub detached : Bool
  pub bare : Bool

abbrev pub new_worktree : Text → Worktree
new_worktree path = record { path = path; branch = []; head = []; detached = false; bare = false }

-- The rows that are finished, the newest first, and the one that is being read.
abbrev pub Reader : Type 0
Reader = List Worktree × Option Worktree

abbrev pub flush : Reader → Reader
flush (out, none) = (out, none)
flush (out, some cur) = (cur ∷ out, none)

abbrev pub modify : (Worktree → Worktree) → Reader → Reader
modify f (out, none) = (out, none)
modify f (out, some cur) = (out, some (f cur))

abbrev pub key_and_value : Text → Option (Text × Text) → Text × Text
key_and_value line none = (line, [])
key_and_value line (some (key, val)) = (key, val)

unfoldable pub read_key : Text × Text → Reader → Reader
read_key (key, val) r =
    if key == codes "worktree"
    then ((flush r).0, some (new_worktree val))
    else if key == codes "HEAD"
    then modify (λ w. record w { head = val }) r
    else if key == codes "branch"
    then modify (λ w. record w { branch = or_else (after_prefix (codes "refs/heads/") val) val }) r
    else if key == codes "detached"
    then modify (λ w. record w { detached = true }) r
    else if key == codes "bare"
    then modify (λ w. record w { bare = true }) r
    else r

unfoldable pub read_line : Text → Reader → Reader
read_line raw r =
    let line = trim_right_of b'\r' raw in
    if trim_space line == [] then flush r else read_key (key_and_value line (cut b' ' line)) r

unfoldable pub read_lines : List Text → Reader → Reader
read_lines [] r = r
read_lines (l ∷ ls) r = read_lines ls (read_line l r)

unfoldable pub in_order : List Worktree → List Worktree → List Worktree
in_order [] acc = acc
in_order (w ∷ ws) acc = in_order ws (w ∷ acc)

unfoldable pub parse_worktree_list : Text → List Worktree
parse_worktree_list porcelain =
    in_order (flush (read_lines (split b'\n' porcelain) ([], none))).0 []

-- Both counts, or neither.
abbrev both : Option ℤ → Option ℤ → Option (ℤ × ℤ)
both (some a) (some b) = some (a, b)
both _ _ = none

abbrev counts : List Text → Option (ℤ × ℤ)
counts (a ∷ b ∷ []) = both (atoi a) (atoi b)
counts _ = none

unfoldable pub parse_ahead_behind : Text → Option (ℤ × ℤ)
parse_ahead_behind out = counts (fields out)

abbrev last_two : List Text → Option Text
last_two [] = none
last_two (a ∷ []) = none
last_two (a ∷ b ∷ []) = some (a ++ b'/' ∷ b)
last_two (a ∷ b ∷ c ∷ ts) = last_two (b ∷ c ∷ ts)

unfoldable pub segments_to_slug : Text → Option Text
segments_to_slug path =
    let p =
      trim_right_of b'/'
        (trim_left_of b'/' (trim_suffix (codes ".git") (trim_right_of b'/' path))) in
    if p == [] then none else last_two (split b'/' p)

abbrev slug_behind : Option (Text × Text) → Option Text
slug_behind none = none
slug_behind (some (_, path)) = segments_to_slug path

-- strings.Cut at "://"
unfoldable pub cut_scheme : Text → Option (Text × Text)
cut_scheme [] = none
cut_scheme (x ∷ xs) = scheme_here x (cut_scheme xs) (after_prefix (codes "://") (x ∷ xs))
  where
    scheme_here : ℕ → Option (Text × Text) → Option Text → Option (Text × Text)
    scheme_here x rest (some path) = some ([], path)
    scheme_here x none none = none
    scheme_here x (some (a, b)) none = some (x ∷ a, b)

abbrev url_slug : Text → Option (Text × Text) → Option Text
url_slug s none = slug_behind (cut b':' s)
url_slug s (some (scheme, rest)) =
    if equal_fold scheme (codes "file") then none else slug_behind (cut b'/' rest)

unfoldable pub slug_from_remote_url : Text → Option Text
slug_from_remote_url raw =
    let s = trim_space raw in if s == [] then none else url_slug s (cut_scheme s)

unfoldable pub repo_slug : Text → Text → Text
repo_slug remote root = or_else (slug_from_remote_url remote) (base_of_clean (clean root))
