-- ===== src/Github/Reconcile.antt =====
-- plugins/github/reconcile.go: one reconcile pass. The pages of repositories, the creation of a hook,
-- the GraphQL request since a time and the printing and reading of times are parameters.
pub mod Discovery
pub mod Hooks
pub mod Counts
use supergraph.Common.{
  ℕ, zero, suc, ◌+◌, ◌-◌, ◌≡◌, Bool, true, false, ◌&&◌, not, Option, none, some, List, [], ◌∷◌,
  ◌++◌, codes, bytes_eq, bytes_eqb, ◌==◌, if◌then◌else◌, length, ltb, or_else, contains, is_some,
}
use supergraph.Common.Bytes.{Text, cut}
use supergraph.Common.Dict.{lookup, insert}
use supergraph.Common.Int.{ℤ}
use supergraph.Common.Json.{Fields, no_field, field, str}
use supergraph.Github.Executor.{Context, NodeResult, extract_keys}
use supergraph.Github.Plugin.{Plugin}
use supergraph.Github.Proxy.{
  Fetched, served, failed, Outcome, other, not_modified, unchanged, changed, fetch_node,
}
use supergraph.Github.Store.{
  Node, Tables, full_name, hook, put_hook, non_pinned_nodes, prune_deliveries,
}
use supergraph.Github.Template.{NamedOp}

-- `posted` holds the repositories for which a hook was requested, the newest first. `cursors` is core's
-- table.
pub record Reconciler : Type 0 where
  pub plugin : Plugin
  pub posted : List (Text × Text)
  pub cursors : List (Text × Text)

pub record World : Type 0 where
  pub context : Context
  pub hook_repos : List Text
  pub repos_page : ℕ → Option (List Text)
  pub create_hook : Text → Text → Option ℤ
  pub ask_since : Option ℕ → Text → Fields → Option Fields
  pub parse_time : Text → Option ℕ
  pub print_time : ℕ → Text
  pub print_nano : ℕ → Text
  pub put_hook_fails : Text → Bool
  pub put_cursor_fails : Text → Bool
  pub prune_fails : Bool
  pub scan_nodes_fails : Bool
  pub open_issues : Option NamedOp

abbrev pub per_page : ℕ
per_page = 100

unfoldable pub named : List Text → List Text
named [] = []
named (r ∷ rs) = let rest = named rs in if r == [] then rest else r ∷ rest

abbrev pub page_turned : Option (List Text) → List Text → List Text
page_turned none rest = []
page_turned (some out) rest = if ltb (length out) per_page then named out else named out ++ rest

-- The pages from one on, as many as the fuel at most.
unfoldable pub discover_repos : (ℕ → Option (List Text)) → ℕ → ℕ → List Text
discover_repos pages zero page = []
discover_repos pages (suc fuel) page =
    page_turned (pages page) (discover_repos pages fuel (suc page))

abbrev pub hook_allowed : List Text → Text → Text → Bool
hook_allowed allowed owner repo = contains allowed (full_name owner repo)

abbrev pub with_tables : Tables → Reconciler → Reconciler
with_tables t s = record s { plugin = record s.plugin { tables = t } }

abbrev pub hook_put : World → Text → Text → Reconciler → Option ℤ → Reconciler
hook_put w owner repo s none = s
hook_put w owner repo s (some id) =
    if w.put_hook_fails (full_name owner repo)
    then s
    else with_tables (put_hook owner repo id s.plugin.tables) s

abbrev pub hook_missing : World → Text → Text → Reconciler → Option ℤ → Reconciler
hook_missing w owner repo s (some id) = s
hook_missing w owner repo s none =
    if not (hook_allowed w.hook_repos owner repo)
    then s
    else hook_put w owner repo (record s { posted = (owner, repo) ∷ s.posted })
        (w.create_hook owner repo)

unfoldable pub ensure_hook : World → Text → Text → Reconciler → Reconciler
ensure_hook w owner repo s = hook_missing w owner repo s (hook owner repo s.plugin.tables)

unfoldable pub set_cursor : World → Text → Text → Reconciler → Reconciler
set_cursor w name value s =
    if w.put_cursor_fails name then s else record s { cursors = insert name value s.cursors }

abbrev pub since_key : Text → Text → Text
since_key owner repo = codes "since:" ++ full_name owner repo

abbrev pub minute_before : Option ℕ → Option ℕ
minute_before none = none
minute_before (some at) = some (at - 60000000000)

abbrev pub since : World → Option Text → Option ℕ
since w none = none
since w (some v) = minute_before (w.parse_time v)

abbrev pub stored : Reconciler → Plugin × List NodeResult → Reconciler
stored s (p, nodes) = record s { plugin = p }

abbrev pub names_of : Text → Text → Fields
names_of owner repo = field (codes "owner") (str owner) (field (codes "repo") (str repo) no_field)

abbrev pub pulled : World → NamedOp → Text → Text → Reconciler → Option Fields → Reconciler
pulled w op owner repo s none = s
pulled w op owner repo s (some object) =
    set_cursor w (since_key owner repo) (w.print_time w.context.now)
      (stored s (extract_keys w.context op.keys (names_of owner repo) object s.plugin))

abbrev pub pulled_since : World → Option NamedOp → Text → Text → Reconciler → Reconciler
pulled_since w none owner repo s = s
pulled_since w (some op) owner repo s =
    pulled w op owner repo s (
      w.ask_since (since w (lookup (since_key owner repo) s.cursors)) op.query
        (names_of owner repo))

unfoldable pub since_reconcile : World → Text → Text → Reconciler → Reconciler
since_reconcile w owner repo s = pulled_since w w.open_issues owner repo s

abbrev pub reconcile_repo : World → Option (Text × Text) → Reconciler → Reconciler
reconcile_repo w none s = s
reconcile_repo w (some (owner, repo)) s = since_reconcile w owner repo (ensure_hook w owner repo s)

unfoldable pub reconcile_repos : World → List Text → Reconciler → Reconciler
reconcile_repos w [] s = s
reconcile_repos w (full ∷ repos) s = reconcile_repos w repos (reconcile_repo w (cut b'/' full) s)

pub record Tally : Type 0 where
  pub checked : ℕ
  pub unmodified : ℕ
  pub landed : ℕ
  pub altered : ℕ

abbrev pub outcome_of : Fetched → Outcome
outcome_of (served n o) = o
outcome_of failed = other

abbrev pub count : Outcome → Tally → Tally
count other t = record t { checked = suc t.checked }
count not_modified t = record t { checked = suc t.checked; unmodified = suc t.unmodified }
count unchanged t = record t { checked = suc t.checked; landed = suc t.landed }
count changed t = record t {
  checked = suc t.checked;
  landed = suc t.landed;
  altered = suc t.altered;
}

abbrev pub counted : (Plugin → Tally → Plugin × Tally) → Plugin × Fetched → Tally → Plugin × Tally
counted rest (p, f) t = rest p (count (outcome_of f) t)

unfoldable pub revalidate_nodes : Context → List Node → Plugin → Tally → Plugin × Tally
revalidate_nodes c [] p t = (p, t)
revalidate_nodes c (n ∷ nodes) p t =
    counted (revalidate_nodes c nodes)
      (fetch_node c.config c.upstream c.driver c.now n.key (some n) p) t

abbrev pub no_tally : Tally
no_tally = record { checked = 0; unmodified = 0; landed = 0; altered = 0 }

unfoldable pub revalidate : World → Plugin → Plugin × Tally
revalidate w p =
    revalidate_nodes w.context
      (if w.scan_nodes_fails then [] else non_pinned_nodes p.tables.github_nodes) p no_tally

abbrev pub week : ℕ
week = 604800000000000

abbrev pub pruned : World → Tables → Tables
pruned w t = if w.prune_fails then t else prune_deliveries w.print_nano (w.context.now - week) t

abbrev pub revalidated : World → Reconciler → Plugin × Tally → Reconciler
revalidated w s (p, t) = with_tables (pruned w p.tables) (record s { plugin = p })

unfoldable pub reconcile_once : World → ℕ → Reconciler → Reconciler
reconcile_once w fuel s =
    let pulled = reconcile_repos w (discover_repos w.repos_page fuel 1) s in
    set_cursor w (codes "reconcile:cursor") (w.print_time w.context.now)
      (revalidated w pulled (revalidate w pulled.plugin))
