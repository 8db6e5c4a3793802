-- ===== src/Github/Executor.antt =====
-- plugins/github/executor.go: the named operations. The GraphQL requests, the parser of a raw query and
-- the printing of several bodies are parameters. A nil map is one without fields.
pub mod Lists
pub mod Members
use supergraph.Common.{
  ℕ, ◌≡◌, Bool, true, false, ◌&&◌, ◌||◌, not, Option, none, some, List, [], ◌∷◌, ◌++◌, codes,
  bytes_eq, bytes_eqb, ◌==◌, if◌then◌else◌, or_else, is_some,
}
use supergraph.Common.Bytes.{Text}
use supergraph.Common.Dict.{lookup}
use supergraph.Common.Json.{Value, obj, Fields, get}
use supergraph.Github.Keys.{kind_of, list_key, typename_for}
use supergraph.Github.Names.{safe_name, coerce}
use supergraph.Github.Plugin.{Plugin}
use supergraph.Github.Proxy.{Upstream, Config, resolve}
use supergraph.Github.Proxy.Pin.{eval_pin}
use supergraph.Github.Store
use supergraph.Github.Store.{Node, Tables, Driver, Got, got, get_error, upsert, put_list}
use supergraph.Github.Template.{NamedOp, placeholders, collect_objects, substitute, object_key}

pub record NodeResult : Type 0 where
  pub key : Text
  pub etag : Text
  pub typename : Text
  pub node : Text

pub record QueryResult : Type 0 where
  pub op : Text
  pub content : Text
  pub nodes : List NodeResult
  pub scope : Text

pub record Graphql : Type 0 where
  pub ask : Text → Fields → Option Fields
  pub marshal_all : List Text → Text
  pub is_introspection_only : Text → Bool
  pub print_other : Value → Text

abbrev pub result_of : Node → NodeResult
result_of n = record { key = n.key; etag = n.etag; typename = n.typename; node = n.json }

-- What is done in one context: the configuration, GitHub, the driver and the clock.
pub record Context : Type 0 where
  pub config : Config
  pub upstream : Upstream
  pub graphql : Graphql
  pub driver : Driver
  pub now : ℕ

abbrev pub also : NodeResult → Plugin × Option (List NodeResult) → Plugin × Option (List NodeResult)
also r (p, none) = (p, none)
also r (p, some nodes) = (p, some (r ∷ nodes))

-- The nodes of a point op, or nothing after an error.
abbrev pub cons_node :
    Plugin × Got → (Plugin → Plugin × Option (List NodeResult)) → Plugin × Option (List NodeResult)
cons_node (p, get_error) rest = (p, none)
cons_node (p, got none) rest = rest p
cons_node (p, got (some n)) rest = also (result_of n) (rest p)

unfoldable pub bodies : List NodeResult → List Text
bodies [] = []
bodies (r ∷ rs) = r.node ∷ bodies rs

abbrev pub cons_result : NodeResult → Plugin × List NodeResult → Plugin × List NodeResult
cons_result r (p, rs) = (p, r ∷ rs)

abbrev pub kept_member :
    Node → Plugin → Option Tables → (Plugin → Plugin × List NodeResult) → Plugin × List NodeResult
kept_member n p none rest = rest p
kept_member n p (some t) rest = cons_result (result_of n) (rest (record p { tables = t }))

abbrev pub joined : List NodeResult → Plugin × List NodeResult → Plugin × List NodeResult
joined rs (p, ss) = (p, rs ++ ss)

abbrev pub append_nodes :
    Plugin × List NodeResult → (Plugin → Plugin × List NodeResult) → Plugin × List NodeResult
append_nodes (p, rs) rest = joined rs (rest p)

module _ (c : Context) where
  abbrev pub resolved_key : Text → Plugin → Plugin × Got
  resolved_key key p = resolve c.config c.upstream c.driver c.now key p

  unfoldable pub resolve_keys : Fields → List Text → Plugin → Plugin × Option (List NodeResult)
  resolve_keys vars [] p = (p, some [])
  resolve_keys vars (kt ∷ keys) p =
      cons_node (resolved_key (substitute c.graphql.print_other kt vars) p) (resolve_keys vars keys)

  abbrev pub point_data : List NodeResult → Text
  point_data [] = codes "null"
  point_data (r ∷ []) = r.node
  point_data (r ∷ s ∷ rs) = c.graphql.marshal_all (bodies (r ∷ s ∷ rs))

  abbrev pub point_result : Text → Plugin × Option (List NodeResult) → Plugin × Option QueryResult
  point_result name (p, none) = (p, none)
  point_result name (p, some nodes) =
      (p, some (record { op = name; content = point_data nodes; nodes = nodes; scope = [] }))

  abbrev pub member : Text → Fields → Node
  member key object = record {
    key = key;
    typename = typename_for key;
    json = or_else (c.upstream.marshal object) [];
    etag = [];
    content_hash = c.upstream.digest (or_else (c.upstream.marshal object) []);
    pinned = eval_pin c.upstream.parse_time c.config.pin c.now key object;
    fetched_at = c.now;
    updated_at = c.now;
  }

  -- A member whose write fails is left out.
  unfoldable pub store_members : Text → List Text → List Fields → Plugin → Plugin × List NodeResult
  store_members key want [] p = (p, [])
  store_members key want (object ∷ objects) p =
      kept_member (member (object_key c.graphql.print_other key want object) object) p
        (upsert c.driver (member (object_key c.graphql.print_other key want object) object)
          p.tables)
        (store_members key want objects)

  abbrev pub served_node : Plugin × Got → Plugin × List NodeResult
  served_node (p, get_error) = (p, [])
  served_node (p, got none) = (p, [])
  served_node (p, got (some n)) = (p, result_of n ∷ [])

  abbrev pub extracted : Text → Fields → List Text → Plugin → Plugin × List NodeResult
  extracted key object [] p = served_node (resolved_key key p)
  extracted key object (f ∷ want) p =
      store_members key (f ∷ want) (collect_objects (obj object) (f ∷ want)) p

  unfoldable pub extract_and_store : Text → Fields → Fields → Plugin → Plugin × List NodeResult
  extract_and_store template vars object p =
      extracted (substitute c.graphql.print_other template vars) object
        (placeholders (substitute c.graphql.print_other template vars)) p

  unfoldable pub extract_keys : List Text → Fields → Fields → Plugin → Plugin × List NodeResult
  extract_keys [] vars object p = (p, [])
  extract_keys (kt ∷ keys) vars object p =
      append_nodes (extract_and_store kt vars object p) (extract_keys keys vars object)

  -- The tag is made of the first template of a key.
  abbrev pub list_tag : Text → List Text → Text
  list_tag scope [] = []
  list_tag scope (kt ∷ keys) = scope ++ b'|' ∷ kind_of kt

  abbrev pub put_result :
      Text → Text → Text → Plugin → List NodeResult → Tables × Bool → Plugin × Option QueryResult
  put_result name scope raw p nodes (t, false) = (record p { tables = t }, none)
  put_result name scope raw p nodes (t, true) = (
    record p { tables = t },
    some (record { op = name; content = raw; nodes = nodes; scope = scope }),
  )

  abbrev pub put_members :
      NamedOp → Text → Text → Plugin × List NodeResult → Plugin × Option QueryResult
  put_members op scope raw (p, nodes) =
      put_result op.name scope raw p nodes
        (put_list c.driver (list_key op.name scope) raw (list_tag scope op.keys) c.now p.tables)

  abbrev pub list_result :
      NamedOp → Text → Fields → Plugin → Option Fields → Plugin × Option QueryResult
  list_result op scope vars p none = (p, none)
  list_result op scope vars p (some object) =
      put_members op scope (or_else (c.upstream.marshal object) [])
        (extract_keys op.keys vars object p)

  -- The list that is cached, or GitHub's answer. An error of the look is taken for a miss.
  abbrev pub list_data : NamedOp → Fields → Got → Option Fields
  list_data op vars (got (some n)) = some (c.upstream.decode n.json)
  list_data op vars (got none) = c.graphql.ask op.query vars
  list_data op vars get_error = c.graphql.ask op.query vars

  abbrev pub run_list : NamedOp → Text → Fields → Plugin → Plugin × Option QueryResult
  run_list op scope vars p =
      list_result op scope vars p
        (list_data op vars (Store.get c.driver (list_key op.name scope) p.tables))

  unfoldable pub run_op : NamedOp → Fields → Plugin → Plugin × Option QueryResult
  run_op op vars p =
      let point = point_result op.name (resolve_keys vars op.keys p) in
      if op.scope == []
      then point
      else run_list op (substitute c.graphql.print_other op.scope vars) vars p

-- The answer of the handler: the result, or its status and the state.
pub data Answer : Type 0 where
  answer : QueryResult → Answer
  raw_answer : Fields → Answer
  refused : ℕ → Answer

pub record Request : Type 0 where
  pub query : Text
  pub op : Text
  pub variables : Fields

abbrev pub run_answer : Plugin × Option QueryResult → Plugin × Answer
run_answer (p, none) = (p, refused 502)
run_answer (p, some r) = (p, answer r)

abbrev pub raw_reply : Plugin → Option Fields → Plugin × Answer
raw_reply p none = (p, refused 502)
raw_reply p (some object) = (p, raw_answer object)

module _ (c : Context) where
  abbrev pub safe_names : Fields → Bool
  safe_names vars =
      safe_name (coerce c.graphql.print_other (get (codes "owner") vars))
      && safe_name (coerce c.graphql.print_other (get (codes "repo") vars))

  abbrev pub run_named : Fields → Plugin → Option NamedOp → Plugin × Answer
  run_named vars p none = (p, refused 404)
  run_named vars p (some op) =
      if not (safe_names vars) then (p, refused 400) else run_answer (run_op c op vars p)

  abbrev pub run_request : List (Text × NamedOp) → Plugin → Request → Plugin × Answer
  run_request ops p r =
      if r.op == []
      then if not (c.graphql.is_introspection_only r.query)
        then (p, refused 400)
        else raw_reply p (c.graphql.ask r.query r.variables)
      else run_named r.variables p (lookup r.op ops)

  -- A body over the limit is refused with 413, and one that cannot be read with 400.
  unfoldable pub handle_graphql :
      List (Text × NamedOp) → Bool → Option Request → Plugin → Plugin × Answer
  handle_graphql ops too_large none p = (p, refused (if too_large then 413 else 400))
  handle_graphql ops too_large (some r) p = run_request ops p r
