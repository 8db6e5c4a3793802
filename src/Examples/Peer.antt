-- ===== src/Examples/Peer.antt =====
-- Examples for plugins/peer/.
use supergraph.Common.{
  ◌≡◌, refl, true, false, none, some, List, [], ◌∷◌, codes, bytes_eq, bytes_eqb, ◌==◌, contains,
}
use supergraph.Common.Dict.{lookup}
use supergraph.Common.Bytes.{Text, cut_last}
use supergraph.Peer.Store.{PeerState, state}
use supergraph.Peer.Mirror.{
  Config, Plugin, RemoteNode, Reply, nodes, mirror, target_plugin, host_of, dropped,
}
use supergraph.Peer.Mirror.Guards.{HasFirstHops, mirror-HasFirstHops}
use supergraph.Peer.Mirror.Kept.{survivors}

abbrev config : Config
config = record {
  local = codes "here";
  peers = codes "box" ∷ [];
  remote_plugin = [];
  mirror_ttl = 5;
  format = λ n. n ∷ [];
}

-- A row of the peer, its mirror of a third box, and an echo.
abbrev answer : List RemoteNode
answer =
    record { key = codes "issue:1@box"; node = [] }
    ∷ record { key = codes "issue:2@third"; node = [] }
    ∷ record { key = codes "issue:3@here"; node = [] }
    ∷ []

abbrev post : Text → Reply
post _ = nodes answer

abbrev up : PeerState
up = record { url = []; last_seen_at = some 1; stale_since = none; lag_seconds = 0 }

abbrev plugin : Plugin
plugin = record {
  tables = record { peer_nodes = []; peer_state = (codes "box", up) ∷ [] };
  emitted = [];
}

mirror-HasFirstHops_example :
    HasFirstHops config.local
      (mirror config (λ _. false) post (codes "issue") (codes "box") 9 plugin).0
mirror-HasFirstHops_example =
    mirror-HasFirstHops config (λ _. false) post (codes "issue") (codes "box") 9 plugin (tt, tt)

box_known : contains config.peers (codes "box") ≡ true
unfolding contains bytes_eqb
box_known = refl

issue_served :
    ((target_plugin config.remote_plugin (codes "issue") == []) ≡ false)
    × ((target_plugin config.remote_plugin (codes "issue") == codes "peer") ≡ false)
unfolding target_plugin lookup bytes_eqb
issue_served = (refl, refl)

-- Only the first of the three is kept.
one_survivor :
    survivors (codes "box") (codes "here") answer
    ≡ record { key = codes "issue:1@box"; node = [] } ∷ []
unfolding dropped host_of cut_last bytes_eqb
one_survivor = refl

box_state : state (codes "box") plugin.tables ≡ some up
unfolding state lookup bytes_eqb
box_state = refl
