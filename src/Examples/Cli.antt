-- ===== src/Examples/Cli.antt =====
-- Examples for cmd/supergraph/, and for the redelivery of plugins/github/ingest.go.
use supergraph.Common.{
  ◌++◌, ℕ, zero, suc, ◌≤◌, ◌≡◌, refl, true, false, none, some, [], ◌∷◌, codes, bytes_eqb, contains,
  All,
}
use supergraph.Common.Int.{pos}
use supergraph.Common.Json.{null}
use supergraph.Common.Dict.{insert}
use supergraph.Common.Bytes.{cut}
use supergraph.Github.Store.{Tables}
use supergraph.Examples.Github.{tables}
use supergraph.Github.Ingest as Ingest
use supergraph.Github.Ingest.{redeliver}
use supergraph.Github.Ingest.Redelivery.{
  unread, all_failed, IsCaughtUp, unread, all_failed, redeliver_again,
}
use supergraph.Cli.Subscribe.{
  Connection, World, Options, next, connection_ack, other, complete, run_subscribe, parse_vars,
  build_subscription, subscription_fields, all_allowed,
}
use supergraph.Cli.Subscribe.Exit.{IsRun, run_subscribe_exit}

-- The first connection ends before an event, the second one sends one.
abbrev connect : ℕ → Connection
connect zero = record {
  dial_fails = false;
  init_fails = false;
  subscribe_fails = false;
  frames = connection_ack ∷ complete ∷ [];
}
connect (suc n) = record {
  dial_fails = false;
  init_fails = false;
  subscribe_fails = false;
  frames = other ∷ connection_ack ∷ next null ∷ next null ∷ [];
}

abbrev world : World
world = record {
  parse = λ _. none;
  connect = connect;
  is_cancelled = λ _. false;
  write_fails = false;
}

abbrev options : Options
options = record {
  field = codes "issueUpdated";
  var_args = codes "repo=app" ∷ codes "owner=acme" ∷ [];
  once = true;
  max_retries = pos 1;
}

run_subscribe_exit_example :
    IsRun true (run_subscribe world options) × ((run_subscribe world options).dials ≤ 2)
unfolding parse_vars cut insert bytes_eqb build_subscription subscription_fields all_allowed
    contains
run_subscribe_exit_example = run_subscribe_exit world options refl refl

abbrev hook : Ingest.Hook
hook = (codes "acme/app", pos 3)

-- A delivery that failed, behind one that did not.
abbrev github : Ingest.World
github = record {
  deliveries = λ _. some (
      record { id = pos 8; status = codes "OK" }
      ∷ record { id = pos 7; status = codes "502" }
      ∷ []);
  hooks_fail = false;
  cursor_fails = λ _. false;
  set_cursor_fails = λ _. false;
}

abbrev fresh : Ingest.Ingest
fresh = record { cursors = []; attempts = [] }

abbrev hooked : Tables
hooked = record tables { github_hooks = hook ∷ [] }

redeliver_again_example :
    (redeliver github hooked (redeliver github hooked fresh) ≡ redeliver github hooked fresh)
    × All (λ h. IsCaughtUp github h (redeliver github hooked fresh).cursors) hooked.github_hooks
    × ((redeliver (unread github) hooked (redeliver github hooked fresh)).attempts
        ≡ (redeliver github hooked fresh).attempts ++ all_failed github hooked.github_hooks)
redeliver_again_example = redeliver_again github hooked fresh (λ _. refl) (λ _. refl) refl
