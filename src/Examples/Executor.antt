-- ===== src/Examples/Executor.antt =====
-- Examples for plugins/github/executor.go.
use supergraph.Common.{
  ◌≡◌, refl, false, none, some, [], ◌∷◌, ◌++◌, codes, bytes_eq, bytes_eqb, ◌==◌, if◌then◌else◌,
}
use supergraph.Common.Dict.{lookup, insert}
use supergraph.Common.Bytes.{Text, cut, starts}
use supergraph.Common.Decimal.{print_int, print_nat, digits}
use supergraph.Common.Int.{pos}
use supergraph.Common.Json.{str, num, obj, Fields, no_field, field, get}
use supergraph.Examples.Github.{issue_key, sound, plugin, calm, composite_lem}
use supergraph.Examples.Proxy.{config, upstream}
use supergraph.Github.Keys.{composite, list_key, kind_of, typename_for, spec_by_kind}
use supergraph.Github.Names.{coerce, fill}
use supergraph.Github.Plugin.{Plugin}
use supergraph.Github.Store
use supergraph.Github.Store.{Node, Tables, list_node, purge, put_list, upsert, got}
use supergraph.Github.Template.{
  NamedOp, has_all, object_key, replace_from, placeholders, substitute, coerced, collect_objects,
}
use supergraph.Github.Executor.{
  Context, NodeResult, QueryResult, run_op, extract_keys, extract_and_store, store_members,
}
use supergraph.Github.Executor.Lists.{run_op-purge}
use supergraph.Github.Executor.Members.{latest, members, run_op_rewrites}

abbrev open_issues : NamedOp
open_issues = record {
  name = codes "openIssues";
  scope = codes "repo:{owner}/{repo}";
  keys = codes "issue:{owner}/{repo}#{number}" ∷ [];
  query = [];
}

abbrev variables : Fields
variables =
    field (codes "owner") (str (codes "acme")) (field (codes "repo") (str (codes "app")) no_field)

abbrev issue_seven : Fields
issue_seven = field (codes "number") (num (pos 7)) no_field

abbrev pub context : Context
context = record {
  config = config;
  upstream = record upstream { decode = λ _. issue_seven; marshal = λ _. some (codes "old") };
  graphql = record {
    ask = λ _ _. some issue_seven;
    marshal_all = λ _. [];
    is_introspection_only = λ _. false;
    print_other = λ _. [];
  };
  driver = sound;
  now = 9;
}

abbrev lk : Text
lk = list_key (codes "openIssues") (substitute (λ _. []) open_issues.scope variables)

abbrev listing : Plugin
listing = record plugin { tables = (put_list sound lk [] [] 1 plugin.tables).0 }

names_left :
    placeholders (substitute (λ _. []) (codes "issue:{owner}/{repo}#{number}") variables)
    ≡ codes "number" ∷ []
unfolding placeholders substitute coerced fill coerce lookup bytes_eqb
names_left = refl

is_cached : Store.get sound lk listing.tables ≡ got (some (list_node lk [] 1))
unfolding Store.get put_list upsert insert lookup list_key substitute coerced fill coerce bytes_eqb
is_cached = refl

run_op_rewrites_example :
    lookup issue_key (run_op context open_issues variables listing).0.tables.github_nodes ≡ (
      if lk == issue_key
      then some (list_node lk (codes "old") 9)
      else latest issue_key
          (members context
            (substitute (λ _. []) (codes "issue:{owner}/{repo}#{number}") variables)
            (codes "number" ∷ [])
            (collect_objects (obj issue_seven) (codes "number" ∷ [])))
          (lookup issue_key listing.tables.github_nodes))
unfolding bytes_eqb
run_op_rewrites_example =
    run_op_rewrites context open_issues variables listing (list_node lk [] 1)
      (codes "issue:{owner}/{repo}#{number}") (codes "number") [] issue_key refl refl names_left
      is_cached (λ _. refl)

abbrev seven : NodeResult
seven = record { key = issue_key; etag = []; typename = codes "Issue"; node = codes "old" }

abbrev listed : QueryResult
listed = record {
  op = codes "openIssues";
  content = codes "old";
  nodes = seven ∷ [];
  scope = codes "repo:acme/app";
}

is_listed : (run_op context open_issues variables plugin).1 ≡ some listed
unfolding run_op Store.get lookup list_key substitute coerced fill coerce bytes_eqb put_list upsert
    extract_keys extract_and_store placeholders store_members collect_objects has_all get object_key
    typename_for replace_from spec_by_kind starts print_int kind_of print_nat cut digits
is_listed = refl

same_tag :
    composite issue_key
    ≡ substitute (λ _. []) open_issues.scope variables
      ++ b'|' ∷ kind_of (codes "issue:{owner}/{repo}#{number}")
unfolding substitute coerced fill coerce lookup bytes_eqb kind_of cut
same_tag = composite_lem

run_op-purge_example :
    lookup lk
      (purge sound issue_key (run_op context open_issues variables plugin).0.tables).0.github_nodes
    ≡ none
unfolding bytes_eqb
run_op-purge_example =
    run_op-purge context sound open_issues variables plugin (codes "issue:{owner}/{repo}#{number}")
      [] listed issue_key refl refl is_listed same_tag calm
