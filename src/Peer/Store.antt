-- ===== src/Peer/Store.antt =====
-- plugins/peer/store.go: the mirrored nodes and the liveness of each peer.
pub mod Outage
use supergraph.Common.{
  ℕ, ◌≡◌, Bool, true, false, ◌&&◌, not, Option, none, some, List, [], ◌∷◌, bytes_eq, bytes_eqb,
  ◌==◌, if◌then◌else◌, is_none, ltb,
}
use supergraph.Common.Dict.{lookup, insert, update_all}
use supergraph.Common.Bytes.{Text}
use supergraph.Common.Order.{lex_leb}

pub record MirroredNode : Type 0 where
  pub key : Text
  pub host : Text
  pub node_json : Text
  pub last_seen_at : ℕ

pub record PeerState : Type 0 where
  pub url : Text
  pub last_seen_at : Option ℕ
  pub stale_since : Option ℕ
  pub lag_seconds : ℕ

pub record Tables : Type 0 where
  pub peer_nodes : List (Text × MirroredNode)
  pub peer_state : List (Text × PeerState)

unfoldable pub upsert_node : MirroredNode → Tables → Tables
upsert_node n t = record t { peer_nodes = insert n.key n t.peer_nodes }

-- INSERT OR IGNORE
abbrev ignore_known :
    Text → PeerState → List (Text × PeerState) → Option PeerState → List (Text × PeerState)
ignore_known host fresh m none = insert host fresh m
ignore_known host fresh m (some _) = m

unfoldable pub init_state : Text → Text → Tables → Tables
init_state host url t = record t {
  peer_state =
      ignore_known host
        (record { url = url; last_seen_at = none; stale_since = none; lag_seconds = 0 })
        t.peer_state (lookup host t.peer_state);
}

abbrev pub seen_row : Text → ℕ → ℕ → Text → PeerState → PeerState
seen_row host at lag h s =
    if h == host
    then record s { last_seen_at = some at; stale_since = none; lag_seconds = lag }
    else s

unfoldable pub mark_seen : Text → ℕ → ℕ → Tables → Tables
mark_seen host at lag t = record t { peer_state = update_all (seen_row host at lag) t.peer_state }

abbrev pub stale_row : Text → ℕ → Text → PeerState → PeerState
stale_row host at h s =
    if h == host && is_none s.stale_since then record s { stale_since = some at } else s

abbrev pub is_live : Option PeerState → Bool
is_live none = false
is_live (some s) = is_none s.stale_since

-- The flag is whether a row was changed.
unfoldable pub mark_stale : Text → ℕ → Tables → Tables × Bool
mark_stale host at t = (
  record t { peer_state = update_all (stale_row host at) t.peer_state },
  is_live (lookup host t.peer_state),
)

unfoldable pub state : Text → Tables → Option PeerState
state host t = lookup host t.peer_state

-- A row is deleted if its time as text stands before the cutoff's. `format` prints a time.
abbrev pub before : Text → Text → Bool
before a b = not (lex_leb b a)

unfoldable pub drop_before :
    (ℕ → Text) → Text → ℕ → List (Text × MirroredNode) → List (Text × MirroredNode)
drop_before format host cutoff [] = []
drop_before format host cutoff ((k, n) ∷ m) =
    let rest = drop_before format host cutoff m in
    if n.host == host && before (format n.last_seen_at) (format cutoff) then rest else (k, n) ∷ rest

unfoldable pub purge_stale : (ℕ → Text) → Text → ℕ → Tables → Tables
purge_stale format host cutoff t = record t {
  peer_nodes = drop_before format host cutoff t.peer_nodes;
}
