-- ===== src/Tmux/Keys.antt =====
-- plugins/tmux/keys.go: the keys of the tmux rows, and whether a pane is free. A text is the list
-- of its codes, which the program walks.
pub mod RoundTrip
use supergraph.Common.{
  ℕ, ◌≡◌, Bool, true, false, ◌||◌, Option, none, some, List, [], ◌∷◌, ◌++◌, codes, bytes_eq,
  bytes_eqb, ◌==◌, if◌then◌else◌,
}
use supergraph.Common.Int.{ℤ}
use supergraph.Common.Bytes.{Text, cut, cut_last, has_code}
use supergraph.Common.Decimal.{print_int, atoi}

unfoldable pub server_key : Text → Text
server_key host = codes "tmuxServer:" ++ host ++ b'@' ∷ host

unfoldable pub session_key : Text → Text → Text
session_key session host = codes "session:" ++ session ++ b'@' ∷ host

unfoldable pub pane_key : Text → ℤ → ℤ → Text → Text
pane_key session window pane host =
    codes "pane:" ++ session ++ b':' ∷ print_int window ++ b'.' ∷ print_int pane ++ b'@' ∷ host

-- The kind of a key and the type that its rows have; a key without a `:` is all kind.
abbrev kind_of : Text → Option (Text × Text) → Text
kind_of key none = key
kind_of key (some (kind, _)) = kind

unfoldable pub typename : Text → Text
typename key =
    let kind = kind_of key (cut b':' key) in
    if kind == codes "tmuxServer"
    then codes "TmuxServer"
    else if kind == codes "session"
    then codes "TmuxSession"
    else if kind == codes "pane"
    then codes "TmuxPane"
    else []

-- `none` is the error.
abbrev has_host : Option (Text × Text) → Option (Text × Text)
has_host none = none
has_host (some (body, [])) = none
has_host (some (body, c ∷ host)) = some (body, c ∷ host)

unfoldable pub split_host : Text → Option (Text × Text)
split_host key = has_host (cut_last b'@' key)

pub record Pane : Type 0 where
  pub session : Text
  pub window : ℤ
  pub pane : ℤ
  pub host : Text

abbrev numbered : Text → Text → Option ℤ → Option ℤ → Option Pane
numbered session host (some window) (some pane) =
    some (record { session = session; window = window; pane = pane; host = host })
numbered session host _ _ = none

abbrev indices : Text → Text → Option (Text × Text) → Option Pane
indices session host none = none
indices session host (some (window, pane)) =
    if has_code b':' pane || has_code b'.' pane
    then none
    else numbered session host (atoi window) (atoi pane)

abbrev scoped : Text → Option (Text × Text) → Option Pane
scoped host none = none
scoped host (some ([], rest)) = none
scoped host (some (c ∷ session, rest)) = indices (c ∷ session) host (cut b'.' rest)

abbrev kinded : Text → Option (Text × Text) → Option Pane
kinded host none = none
kinded host (some (kind, scope)) =
    if kind == codes "pane" then scoped host (cut b':' scope) else none

abbrev hosted : Option (Text × Text) → Option Pane
hosted none = none
hosted (some (body, host)) = kinded host (cut b':' body)

unfoldable pub parse_pane_key : Text → Option Pane
parse_pane_key key = hosted (split_host key)

unfoldable pub is_idle : Text → List Text → Bool
is_idle cmd [] = false
is_idle cmd (sh ∷ shells) = let rest = is_idle cmd shells in if cmd == sh then true else rest
