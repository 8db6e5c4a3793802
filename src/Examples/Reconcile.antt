-- ===== src/Examples/Reconcile.antt =====
-- Examples for plugins/github/reconcile.go.
use supergraph.Common.{
  ℕ, ◌≡◌, refl, false, Option, none, some, List, [], ◌∷◌, codes, arith, zero, suc, nat_eq, ◌==◌,
  if◌then◌else◌,
}
use supergraph.Common.Bytes.{Text}
use supergraph.Common.Int.{pos}
use supergraph.Examples.Executor.{context}
use supergraph.Examples.Proxy.{caching}
use supergraph.Github.Reconcile.{Reconciler, World, per_page, discover_repos, reconcile_once}
use supergraph.Github.Reconcile.Discovery.{with_name, rows, discover_repos_exact}
use supergraph.Github.Reconcile.Hooks.{IsAllowed, reconcile_once-IsAllowed}

abbrev pages : ℕ → Option (List Text)
pages page = some (codes "acme/app" ∷ codes "acme/other" ∷ [])

abbrev world : World
world = record {
  context = context;
  hook_repos = codes "acme/app" ∷ [];
  repos_page = pages;
  create_hook = λ _ _. some (pos 3);
  ask_since = λ _ _ _. none;
  parse_time = λ _. none;
  print_time = λ _. [];
  print_nano = λ _. [];
  put_hook_fails = λ _. false;
  put_cursor_fails = λ _. false;
  prune_fails = false;
  scan_nodes_fails = false;
  open_issues = none;
}

abbrev idle : Reconciler
idle = record { plugin = caching; posted = []; cursors = [] }

-- A full page, and one that cannot be read.
abbrev many : ℕ → Text → List Text
many zero t = []
many (suc n) t = t ∷ many n t

abbrev full_page : List Text
full_page = many per_page (codes "acme/app")

abbrev two_pages : ℕ → Option (List Text)
two_pages page = if page == 1 then some full_page else none

discover_repos_exact_example : discover_repos two_pages 50 1 ≡ with_name (rows (full_page ∷ []) [])
discover_repos_exact_example =
    discover_repos_exact two_pages (full_page ∷ []) 50 (refl, refl, tt) refl (omega arith)

reconcile_once-IsAllowed_example :
    IsAllowed (codes "acme/app" ∷ []) (reconcile_once world 5 idle).posted
reconcile_once-IsAllowed_example = reconcile_once-IsAllowed world 5 idle tt
