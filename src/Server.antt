-- ===== src/Server.antt =====
-- server/server.go: which requests reach the handlers.
pub mod Guard
use supergraph.Common.{
  ◌≡◌, Bool, true, false, ◌||◌, not, Option, none, some, List, [], ◌∷◌, codes, bytes_eq, bytes_eqb,
  ◌==◌, if◌then◌else◌,
}
use supergraph.Common.Bytes.{Text, after_prefix}
use supergraph.Core.Config.{Config, System, listen_is_loopback}

-- Every entry is compared.
unfoldable pub token_matches : Text → List (Text × Text) → Bool
token_matches got [] = false
token_matches got ((name, want) ∷ tokens) =
    let rest = token_matches got tokens in if got == want then true else rest

abbrev pub prefix_matches : List (Text × Text) → Option Text → Bool
prefix_matches tokens none = false
prefix_matches tokens (some got) = token_matches got tokens

-- Whether a request with an Authorization header goes on to the handlers.
unfoldable pub bearer_auth : List (Text × Text) → Text → Bool
bearer_auth tokens authorization =
    prefix_matches tokens (after_prefix (codes "Bearer ") authorization)

-- The server's outermost handler.
unfoldable pub admits : System → Config → Text → Bool
admits y c authorization =
    if not (listen_is_loopback y c.listen) then bearer_auth c.tokens authorization else true
