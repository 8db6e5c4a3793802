-- ===== src/Github/Keys.antt =====
-- plugins/github/keys.go: the key grammar and its table.
pub mod Scope
use supergraph.Common.{
  ℕ, ◌≡◌, Bool, true, false, ◌||◌, Option, none, some, List, [], ◌∷◌, ◌++◌, codes, bytes_eq,
  bytes_eqb, ◌==◌, if◌then◌else◌, eqb, or_else, contains, String,
}
use supergraph.Common.Dict.{lookup, insert}
use supergraph.Common.Bytes.{Text, cut, cut_last}
use supergraph.Github.Names.{Parts, fill, path_escape}

pub record KindSpec : Type 0 where
  pub kind : Text
  pub typename : Text
  pub keyfmt : Text
  pub rest : Text
  pub events : List Text
  pub object : Text
  pub name : Text

-- A kind that no event addresses.
abbrev plain : String → String → String → String → KindSpec
plain kind typename keyfmt rest = record {
  kind = codes kind;
  typename = codes typename;
  keyfmt = codes keyfmt;
  rest = codes rest;
  events = [];
  object = [];
  name = [];
}

abbrev pub issue_spec : KindSpec
issue_spec =
    record (plain "issue" "Issue" "issue:{owner}/{repo}#{disc}"
      "/repos/{owner}/{repo}/issues/{disc}") {
        events = codes "issues" ∷ codes "issue_comment" ∷ [];
        object = codes "issue";
        name = codes "number";
      }

abbrev pub pr_spec : KindSpec
pr_spec =
    record (plain "pr" "PullRequest" "pr:{owner}/{repo}#{disc}"
      "/repos/{owner}/{repo}/pulls/{disc}") {
        events =
            codes "pull_request"
            ∷ codes "pull_request_review"
            ∷ codes "pull_request_review_comment"
            ∷ [];
        object = codes "pull_request";
        name = codes "number";
      }

abbrev pub check_run_spec : KindSpec
check_run_spec =
    record (plain "checkRun" "CheckRun" "checkRun:{owner}/{repo}/{disc}"
      "/repos/{owner}/{repo}/check-runs/{disc}") {
        events = codes "check_run" ∷ [];
        object = codes "check_run";
        name = codes "id";
      }

abbrev pub label_spec : KindSpec
label_spec =
    record (plain "label" "Label" "label:{owner}/{repo}/{disc}"
      "/repos/{owner}/{repo}/labels/{disc}") {
        events = codes "label" ∷ [];
        object = codes "label";
        name = codes "name";
      }

abbrev pub release_spec : KindSpec
release_spec =
    record (plain "release" "Release" "release:{owner}/{repo}/{disc}"
      "/repos/{owner}/{repo}/releases/tags/{disc}") {
        events = codes "release" ∷ [];
        object = codes "release";
        name = codes "tag_name";
      }

abbrev pub kind_specs : List KindSpec
kind_specs =
    issue_spec
    ∷ pr_spec
    ∷ check_run_spec
    ∷ plain "review" "PullRequestReview" "review:{owner}/{repo}#{disc}/{subid}"
        "/repos/{owner}/{repo}/pulls/{disc}/reviews/{subid}"
    ∷ plain "comment" "IssueComment" "comment:{owner}/{repo}#{disc}/{subid}"
        "/repos/{owner}/{repo}/issues/comments/{subid}"
    ∷ label_spec
    ∷ release_spec
    ∷ plain "commit" "Commit" "commit:{owner}/{repo}/{disc}" "/repos/{owner}/{repo}/commits/{disc}"
    ∷ plain "ref" "Ref" "ref:{owner}/{repo}/{sub}" "/repos/{owner}/{repo}/git/refs/{sub}"
    ∷ plain "repo" "Repository" "repo:{owner}/{repo}" "/repos/{owner}/{repo}"
    ∷ plain "user" "User" "user:{login}" "/users/{login}"
    ∷ []

-- No kind and no event stands in two rows, so the maps of `init` give the row that is found first.
unfoldable pub kind_in : Text → List KindSpec → Option KindSpec
kind_in kind [] = none
kind_in kind (s ∷ specs) = let rest = kind_in kind specs in if s.kind == kind then some s else rest

unfoldable pub spec_by_kind : Text → Option KindSpec
unfolding kind_in
spec_by_kind kind = kind_in kind kind_specs

unfoldable pub event_in : Text → List KindSpec → Option KindSpec
event_in event [] = none
event_in event (s ∷ specs) =
    let rest = event_in event specs in if contains s.events event then some s else rest

unfoldable pub spec_by_event : Text → Option KindSpec
unfolding event_in
spec_by_event event = event_in event kind_specs

abbrev pub kind_before : Option (Text × Text) → Text
kind_before none = []
kind_before (some (kind, _)) = kind

unfoldable pub kind_of : Text → Text
kind_of key = kind_before (cut b':' key)

abbrev pub before_host : Text → Option (Text × Text) → Text
before_host key none = key
before_host key (some (body, _)) = body

unfoldable pub strip_host : Text → Text
strip_host key = before_host key (cut_last b'@' key)

abbrev pub after_kind : Text → Option (Text × Text) → Text
after_kind rest none = rest
after_kind rest (some (_, scope)) = scope

-- The text before the first `#` or `/`, and the text from it on.
abbrev cons_part : ℕ → Text × Text → Text × Text
cons_part c (a, b) = (c ∷ a, b)

unfoldable pub split_repo : Text → Text × Text
split_repo [] = ([], [])
split_repo (c ∷ t) =
    let more = cons_part c (split_repo t) in if eqb c b'#' || eqb c b'/' then ([], c ∷ t) else more

abbrev pub numbered : Text → Option (Text × Text) → Parts
numbered rem none = (codes "disc", rem) ∷ []
numbered rem (some (disc, subid)) = (codes "disc", disc) ∷ (codes "subid", subid) ∷ []

abbrev first_segment : Text → Option (Text × Text) → Text
first_segment rem none = rem
first_segment rem (some (disc, _)) = disc

-- What stands behind the repository.
abbrev pub tail_parts : Text → Parts
tail_parts [] = []
tail_parts (c ∷ rem) =
    if eqb c b'#'
    then numbered rem (cut b'/' rem)
    else (codes "sub", rem) ∷ (codes "disc", first_segment rem (cut b'/' rem)) ∷ []

abbrev pub scoped : Text → Text → Parts
scoped owner tail =
    let split = split_repo tail in
    (codes "owner", owner) ∷ (codes "repo", split.0) ∷ tail_parts split.1

abbrev pub owned : Text → Option (Text × Text) → Parts
owned rest none = scoped rest []
owned rest (some (owner, tail)) = scoped owner tail

unfoldable pub parse_key : Text → Parts
parse_key key =
    let rest = after_kind (strip_host key) (cut b':' (strip_host key)) in
    if kind_of key == codes "user" then (codes "login", rest) ∷ [] else owned rest (cut b'/' rest)

-- A Go map gives "" for a name that is not there.
abbrev pub part : Text → Parts → Text
part name p = or_else (lookup name p) []

abbrev rest_of : Option KindSpec → Text
rest_of none = []
rest_of (some s) = s.rest

unfoldable pub rest_path : Text → Text
rest_path key =
    let p = parse_key key in
    let escaped =
      insert (codes "subid") (path_escape (part (codes "subid") p))
        (insert (codes "disc") (path_escape (part (codes "disc") p)) p) in
    fill escaped (rest_of (spec_by_kind (kind_of key)))

abbrev typename_or_node : Option KindSpec → Text
typename_or_node none = codes "Node"
typename_or_node (some s) = s.typename

unfoldable pub typename_for : Text → Text
typename_for key = typename_or_node (spec_by_kind (kind_of key))

abbrev pub prefix_of : Text → Text → Text
prefix_of owner repo = codes "repo:" ++ owner ++ b'/' ∷ repo

unfoldable pub scope_prefix : Text → Text
scope_prefix key =
    let owner = part (codes "owner") (parse_key key) in
    let repo = part (codes "repo") (parse_key key) in
    if owner == [] || repo == [] then [] else prefix_of owner repo

abbrev joined : Text → Text → Text
joined [] kind = []
joined (c ∷ sp) kind = (c ∷ sp) ++ b'|' ∷ kind

unfoldable pub composite : Text → Text
composite key = joined (scope_prefix key) (kind_of key)

unfoldable pub list_key : Text → Text → Text
list_key op scope = codes "list:" ++ op ++ b':' ∷ scope
