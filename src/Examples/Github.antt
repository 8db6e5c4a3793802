-- ===== src/Examples/Github.antt =====
-- Examples for plugins/github/.
use supergraph.Common.{
  ◌≡◌, ◌≢◌, refl, true, false, none, some, [], ◌∷◌, ◌++◌, codes, bytes_eq, bytes_eqb, contains,
  if◌then◌else◌,
}
use supergraph.Common.Dict.{lookup}
use supergraph.Common.Int.{pos}
use supergraph.Common.Bytes.{Text, cut, cut_last, has_part, starts}
use supergraph.Common.Decimal.{print_int, print_nat, digits}
use supergraph.Common.Json.{num, str, obj, Fields, no_field, field, get}
use supergraph.Github.Names.{safe_name, all_codes, fill, coerce}
use supergraph.Github.Keys.{
  spec_by_event, event_in, composite, scope_prefix, kind_of, split_repo, strip_host, parse_key,
}
use supergraph.Github.Events.{event_key, repo_full_name, disc_field, is_pr_comment}
use supergraph.Github.Store.{
  nodes_by_kind, Tables, Driver, purge, list_node, has_tag, delivery_seen,
}
use supergraph.Github.Store.Purge.{IsCalm, is_evicted, purge_exact}
use supergraph.Github.Store.Like.{nodes_by_kind_exact, nodes_where, is_object_under}
use supergraph.Github.Plugin.{Plugin}
use supergraph.Github.Webhook.{Request, body, ok, Outside, verify_signature, handle_webhook}
use supergraph.Github.Webhook.Delivery.{announces, is_new, handle_webhook-evicts}
use supergraph.Github.Webhook.Once.{handle_webhook-once}

abbrev pub issue_key : Text
issue_key = codes "issue:acme/app#7"

abbrev pub on_app : Text
on_app = codes "repo:acme/app|issue"

abbrev pub open_issues : Text
open_issues = codes "list:open"

-- {"repository": {"full_name": "acme/app"}, "issue": {"number": 7}}
abbrev payload : Fields
payload =
    field (codes "repository") (obj (field (codes "full_name") (str (codes "acme/app")) no_field))
      (field (codes "issue") (obj (field (codes "number") (num (pos 7)) no_field)) no_field)

abbrev outside : Outside
outside = record {
  secret = codes "s";
  sign = λ secret text. secret ++ text;
  decode = λ _. payload;
  print_other = λ _. [];
}

abbrev signed : Request
signed = record {
  content = body (codes "{}");
  signature = codes "s{}";
  delivery = codes "d1";
  event = codes "issues";
}

abbrev unsigned : Request
unsigned = record signed { signature = codes "x" }

abbrev pub sound : Driver
sound = record {
  select_fails = λ _. false;
  upsert_fails = λ _. false;
  bump_fails = λ _. false;
  mark_fails = λ _. false;
  tag_fails = λ _. false;
  scan_tags_fails = false;
  delete_fails = λ _. false;
  untag_fails = λ _. false;
}

abbrev locked : Driver
locked = record sound { delete_fails = λ _. true }

abbrev pub calm : IsCalm sound
calm = record { scans = refl; deletes = λ _. refl; untags = λ _. refl }

abbrev pub tables : Tables
tables = record {
  github_nodes =
      (issue_key, list_node issue_key [] 1) ∷ (open_issues, list_node open_issues [] 1) ∷ [];
  github_tags = (on_app, open_issues) ∷ [];
  github_hooks = [];
  github_deliveries = [];
}

abbrev pub plugin : Plugin
plugin = record { tables = tables; emitted = []; asked = [] }

issue_key_lem : event_key outside.print_other (codes "issues") payload ≡ some issue_key
unfolding event_key spec_by_event event_in contains repo_full_name get cut safe_name all_codes
    has_part starts disc_field coerce digits print_int print_nat is_pr_comment fill lookup bytes_eqb
issue_key_lem = refl

pub composite_lem : composite issue_key ≡ on_app
unfolding composite scope_prefix parse_key kind_of split_repo strip_host cut cut_last lookup
    bytes_eqb
composite_lem = refl

purge_exact_example :
    ((purge sound issue_key tables).1 ≢ none)
    × (lookup open_issues (purge sound issue_key tables).0.github_nodes ≡ (
        if is_evicted issue_key open_issues tables
        then none
        else lookup open_issues tables.github_nodes))
    × (has_tag on_app open_issues (purge sound issue_key tables).0.github_tags ≡ (
        if is_evicted issue_key open_issues tables
        then false
        else has_tag on_app open_issues tables.github_tags))
purge_exact_example = purge_exact sound issue_key open_issues on_app tables calm

handle_webhook-evicts_example :
    ((handle_webhook outside sound 5 signed plugin).1 ≡ ok)
    × (announces issue_key (handle_webhook outside sound 5 signed plugin).0.emitted ≡ true)
    × (lookup open_issues (handle_webhook outside sound 5 signed plugin).0.tables.github_nodes
        ≡ none)
unfolding verify_signature is_new delivery_seen lookup bytes_eqb composite scope_prefix parse_key
    kind_of cut strip_host cut_last split_repo has_tag
handle_webhook-evicts_example =
    handle_webhook-evicts outside sound 5 signed plugin (codes "{}") issue_key open_issues refl refl
      refl issue_key_lem calm refl

handle_webhook-once_example :
    handle_webhook outside locked 9 signed (handle_webhook outside sound 5 signed plugin).0
    ≡ ((handle_webhook outside sound 5 signed plugin).0, ok)
unfolding verify_signature bytes_eqb
handle_webhook-once_example =
    handle_webhook-once outside sound locked 5 9 signed plugin (codes "{}") refl refl refl refl refl

nodes_by_kind_exact_example :
    nodes_by_kind (codes "issue") (codes "acme/app") tables
    ≡ nodes_where (is_object_under (codes "issue") (codes "acme/app")) tables.github_nodes
nodes_by_kind_exact_example = nodes_by_kind_exact (codes "issue") (codes "acme/app") tables
