-- ===== src/Examples/Proxy.antt =====
-- Examples for plugins/github/proxy.go.
use supergraph.Common.{
  ◌≤◌, ◌≡◌, refl, true, false, none, some, [], ◌∷◌, codes, bytes_eq, bytes_eqb, ◌++◌, if◌then◌else◌,
  is_some,
}
use supergraph.Common.Dict.{lookup}
use supergraph.Common.Bytes.{Text, cut, has_part, starts}
use supergraph.Common.Json.{no_field}
use supergraph.Examples.Github.{issue_key, sound, tables, plugin}
use supergraph.Github.Keys.{kind_of}
use supergraph.Github.Plugin.{Plugin}
use supergraph.Github.Store.{Node}
use supergraph.Github.Proxy.{
  Upstream, Config, reply, no_reply, fetch_node, point_op, is_graphql_shape,
}
use supergraph.Github.Proxy.Flight.{
  Flights, started, then_step, enters, enter, running, running_once,
}
use supergraph.Github.Proxy.Shape.{Keeps, fetch_node-Keeps}
use supergraph.Github.Proxy.Updates.{events_for, fetch_node-events_for}

abbrev pub config : Config
config = record {
  pin = record {
    commits = true;
    releases = true;
    merged_prs_after_days = 7;
    closed_issues_after_days = 30;
  };
  ttl = λ _. 0;
}

-- REST answers, and the named ops do not.
abbrev pub upstream : Upstream
upstream = record {
  get_rest = λ _ _. reply 200 (codes "body") (codes "etag");
  has_op = λ _. true;
  point = λ _ _ _ _. none;
  marshal = λ _. none;
  decode = λ _. no_field;
  digest = λ t. t;
  parse_time = λ _. none;
}

abbrev down : Upstream
down = record upstream { get_rest = λ _ _. no_reply }

abbrev commit_key : Text
commit_key = codes "commit:acme/app/abc"

abbrev shaped : Node
shaped = record {
  key = issue_key;
  typename = codes "Issue";
  json = b'"' ∷ codes "updatedAt" ++ b'"' ∷ [];
  etag = [];
  content_hash = codes "old";
  pinned = false;
  fetched_at = 1;
  updated_at = 1;
}

abbrev pub caching : Plugin
caching = record plugin { tables = record tables { github_nodes = (issue_key, shaped) ∷ [] } }

fetch_node-events_for_example :
    (fetch_node config upstream sound 5 commit_key none plugin).0.emitted
    ≡ events_for none
        (lookup commit_key
          (fetch_node config upstream sound 5 commit_key none plugin).0.tables.github_nodes)
        plugin.emitted
unfolding lookup bytes_eqb
fetch_node-events_for_example =
    fetch_node-events_for config upstream sound 5 commit_key none plugin refl

fetch_node-Keeps_example :
    Keeps upstream issue_key shaped
      (fetch_node config upstream sound 5 issue_key (some shaped) caching).0.tables
unfolding lookup bytes_eqb point_op kind_of cut is_graphql_shape has_part starts
fetch_node-Keeps_example =
    fetch_node-Keeps config upstream sound 5 issue_key shaped caching refl refl refl

abbrev idle : Flights
idle = record { flights = []; leaders = []; waiting = [] }

running_once_example :
    running issue_key (enter issue_key (enter issue_key idle)).leaders
    ≤ (if is_some (lookup issue_key (enter issue_key (enter issue_key idle)).flights) then 1 else 0)
running_once_example = running_once (enter issue_key (enter issue_key idle)) issue_key (
    then_step (then_step started (enters issue_key idle)) (enters issue_key (enter issue_key idle)))
