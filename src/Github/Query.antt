-- ===== src/Github/Query.antt =====
-- plugins/github/query.go: the typed reads of the cache, for a plugin that runs. The decoding of a body
-- and the reading of a time are parameters. A failure of the driver reads as no row.
use supergraph.Common.{
  ℕ, Bool, ◌&&◌, ◌||◌, not, Option, none, some, List, [], ◌∷◌, ◌++◌, bytes_eq, ◌==◌, if◌then◌else◌,
  codes, map,
}
use supergraph.Common.Int.{ℤ}
use supergraph.Common.Bytes.{Text}
use supergraph.Common.Decimal.{lax_atoi}
use supergraph.Github.Names.{safe_name}
use supergraph.Github.Keys.{kind_of, parse_key, part}
use supergraph.Github.Store.{Node, Tables, Driver, Got, got, get_error, get, nodes_by_kind}

-- What encoding/json reads of a body: a field that is missing is empty. `rollups` has the states of
-- commits.nodes, `none` where a commit has no rollup.
pub record NodeJson : Type 0 where
  pub title : Text
  pub state : Text
  pub url : Text
  pub updated_at : Text
  pub body : Text
  pub head_ref : Text
  pub base_ref : Text
  pub is_draft : Bool
  pub review_dec : Text
  pub merge_st : Text
  pub rollups : List (Option Text)
  pub labels : List Text
  pub assignees : List Text

pub record Decoding : Type 0 where
  pub decode : Text → NodeJson
  pub parse_time : Text → Option ℕ

pub record IssueNode : Type 0 where
  pub owner : Text
  pub repo : Text
  pub number : ℤ
  pub title : Text
  pub state : Text
  pub url : Text
  pub updated_at : Option ℕ
  pub labels : List Text
  pub assignees : List Text

pub record PrNode : Type 0 where
  pub owner : Text
  pub repo : Text
  pub number : ℤ
  pub title : Text
  pub state : Text
  pub url : Text
  pub updated_at : Option ℕ
  pub labels : List Text
  pub head_ref_name : Text
  pub base_ref_name : Option Text
  pub body : Text
  pub draft : Bool
  pub review_decision : Option Text
  pub status_check_rollup : Option Text
  pub merge_state_status : Option Text

unfoldable pub key_parts : Text → Text × Text × ℤ
key_parts key =
    let p = parse_key key in
    (part (codes "owner") p, part (codes "repo") p, lax_atoi (part (codes "disc") p))

abbrev pub ptr_if : Text → Option Text
ptr_if [] = none
ptr_if (c ∷ s) = some (c ∷ s)

abbrev ptr_of : Option Text → Option Text
ptr_of none = none
ptr_of (some s) = ptr_if s

abbrev rollup_of : List (Option Text) → Option Text
rollup_of [] = none
rollup_of (r ∷ _) = ptr_of r

unfoldable pub map_issue : Decoding → Text → Text → IssueNode
map_issue y key raw =
    let j = y.decode raw in
    let (owner, repo, number) = key_parts key in
    record {
      owner = owner;
      repo = repo;
      number = number;
      title = j.title;
      state = j.state;
      url = j.url;
      updated_at = y.parse_time j.updated_at;
      labels = j.labels;
      assignees = j.assignees;
    }

unfoldable pub safe_key : Text → Bool
safe_key key =
    let p = parse_key key in safe_name (part (codes "owner") p) && safe_name (part (codes "repo") p)

unfoldable pub map_pr : Decoding → Text → Text → PrNode
map_pr y key raw =
    let j = y.decode raw in
    let (owner, repo, number) = key_parts key in
    record {
      owner = owner;
      repo = repo;
      number = number;
      title = j.title;
      state = j.state;
      url = j.url;
      updated_at = y.parse_time j.updated_at;
      labels = j.labels;
      head_ref_name = j.head_ref;
      base_ref_name = ptr_if j.base_ref;
      body = j.body;
      draft = j.is_draft;
      review_decision = ptr_if j.review_dec;
      status_check_rollup = rollup_of j.rollups;
      merge_state_status = ptr_if j.merge_st;
    }

abbrev pub mapped : {A : Type 0} → (Text → A) → Got → Option A
mapped f (got (some n)) = some (f n.json)
mapped f (got none) = none
mapped f get_error = none

unfoldable pub issue : Decoding → Driver → Text → Tables → Option IssueNode
issue y d key t =
    if not (kind_of key == codes "issue") || not (safe_key key)
    then none
    else mapped (map_issue y key) (get d key t)

unfoldable pub pull_request : Decoding → Driver → Text → Tables → Option PrNode
pull_request y d key t =
    if not (kind_of key == codes "pr") || not (safe_key key)
    then none
    else mapped (map_pr y key) (get d key t)

abbrev pub scope_of : Text → Text → Text
scope_of owner repo = owner ++ b'/' ∷ repo

unfoldable pub issues_for_repo : Decoding → Bool → Text → Text → Tables → List IssueNode
issues_for_repo y fails owner repo t =
    if not (safe_name owner) || not (safe_name repo) || fails
    then []
    else map (λ (n : Node). map_issue y n.key n.json)
        (nodes_by_kind (codes "issue") (scope_of owner repo) t)

unfoldable pub cached_prs : Decoding → Bool → Text → Text → Tables → List PrNode
cached_prs y fails owner repo t =
    if not (safe_name owner) || not (safe_name repo) || fails
    then []
    else map (λ (n : Node). map_pr y n.key n.json)
        (nodes_by_kind (codes "pr") (scope_of owner repo) t)
