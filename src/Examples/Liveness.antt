-- ===== src/Examples/Liveness.antt =====
-- Examples for plugins/peer/liveness.go.
use supergraph.Common.{
  ℕ, ◌+◌, ◌≡◌, refl, true, false, none, [], ◌∷◌, List, length, codes, bytes_eqb, arith,
}
use supergraph.Common.Dict.{lookup}
use supergraph.Peer.Liveness.{Attempt, refused, opened, Driver, Live, backoff_initial, run_liveness}
use supergraph.Peer.Liveness.Backoff.{capped, doublings, run_liveness_backoff}
use supergraph.Peer.Liveness.Transitions.{connections, run_liveness_reports}

abbrev works : Driver
works = record { seen_fails = λ _. false; stale_fails = λ _. false }

abbrev start : Live
start = record {
  tables = record {
    peer_nodes = [];
    peer_state =
        (codes "b", record { url = []; last_seen_at = none; stale_since = none; lag_seconds = 0 })
        ∷ [];
  };
  ever_up = false;
  backoff = backoff_initial;
  emitted = [];
  slept = [];
}

abbrev outages : List Attempt
outages = refused true 1 ∷ opened 2 ((3, 4) ∷ []) 5 ∷ refused false 6 ∷ refused false 7 ∷ []

abbrev refusals : List Attempt
refusals = refused true 1 ∷ refused false 2 ∷ []

abbrev half_minute : ℕ
half_minute = 30000000000

run_liveness_backoff_example :
    (run_liveness works half_minute (codes "b") refusals start).backoff
    ≡ capped half_minute (doublings (length refusals) backoff_initial)
run_liveness_backoff_example =
    run_liveness_backoff works half_minute (codes "b") refusals start (omega arith) (tt, (tt, tt))

run_liveness_reports_example :
    length (run_liveness works half_minute (codes "b") outages start).emitted
    ≡ length start.emitted + connections outages
unfolding lookup bytes_eqb
run_liveness_reports_example =
    run_liveness_reports works half_minute (codes "b") outages start
      (record { seen_works = λ _. refl; stale_works = λ _. refl }) refl refl
