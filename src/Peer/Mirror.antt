-- ===== src/Peer/Mirror.antt =====
-- plugins/peer/mirror.go: what is kept of a peer's answer. The answer of the peer is an argument,
-- and so is whether each node's statement fails; the statements whose error the code ignores succeed.
pub mod Guards
pub mod Kept
use supergraph.Common.{
  ℕ, ◌≡◌, Bool, true, false, ◌&&◌, ◌||◌, not, Option, none, some, List, [], ◌∷◌, codes, bytes_eq,
  bytes_eqb, ◌==◌, if◌then◌else◌, contains, eqb, ◌-◌,
}
use supergraph.Common.Dict.{lookup}
use supergraph.Common.Bytes.{Text, cut_last}
use supergraph.Peer.Store.{MirroredNode, Tables, upsert_node, mark_seen, mark_stale, purge_stale}

abbrev behind_at : Option (Text × Text) → Text
behind_at none = []
behind_at (some (_, host)) = host

unfoldable pub host_of : Text → Text
host_of key = behind_at (cut_last b'@' key)

abbrev pub op_plugins : List (Text × Text)
op_plugins =
    (codes "issue", codes "github")
    ∷ (codes "pr", codes "github")
    ∷ (codes "issueComments", codes "github")
    ∷ (codes "freeSlots", codes "tmux")
    ∷ (codes "paneForBranch", codes "tmux")
    ∷ (codes "claude", codes "claude")
    ∷ []

-- A missing op is served by no plugin.
abbrev or_empty : Option Text → Text
or_empty none = []
or_empty (some p) = p

unfoldable pub target_plugin : Text → Text → Text
target_plugin [] op = or_empty (lookup op op_plugins)
target_plugin (c ∷ remote_plugin) op = c ∷ remote_plugin

pub record RemoteNode : Type 0 where
  pub key : Text
  pub node : Text

-- postOp: the nodes, a rejected token, or another error.
pub data Reply : Type 0 where
  nodes : List RemoteNode → Reply
  unauthorized : Reply
  broken : Reply

pub data Outcome : Type 0 where
  kept : List MirroredNode → Outcome
  error : Outcome

-- The tables, and the nodes that were emitted, the newest first.
pub record Plugin : Type 0 where
  pub tables : Tables
  pub emitted : List MirroredNode

unfoldable pub dropped : Text → Text → Text → Bool
dropped host_id local key = not (host_of key == host_id) || host_of key == local

abbrev pub cons_kept : MirroredNode → Plugin × Outcome → Plugin × Outcome
cons_kept n (p, kept ns) = (p, kept (n ∷ ns))
cons_kept n (p, error) = (p, error)

abbrev pub mirrored : Text → ℕ → RemoteNode → MirroredNode
mirrored host_id now rn = record {
  key = rn.key;
  host = host_id;
  node_json = rn.node;
  last_seen_at = now;
}

abbrev pub keep_node : MirroredNode → Plugin → Plugin
keep_node n p = record { tables = upsert_node n p.tables; emitted = n ∷ p.emitted }

unfoldable pub keep_all :
    (Text → Bool) → Text → Text → ℕ → List RemoteNode → Plugin → Plugin × Outcome
keep_all fails host_id local now [] p = (p, kept [])
keep_all fails host_id local now (rn ∷ rns) p =
    let n = mirrored host_id now rn in
    let skip = keep_all fails host_id local now rns p in
    let next = cons_kept n (keep_all fails host_id local now rns (keep_node n p)) in
    if dropped host_id local rn.key then skip else if fails rn.key then (p, error) else next

-- What the plugin is configured with; a time to live of 0 keeps every row.
pub record Config : Type 0 where
  pub local : Text
  pub peers : List Text
  pub remote_plugin : Text
  pub mirror_ttl : ℕ
  pub format : ℕ → Text

abbrev pub purged : Config → Text → ℕ → Tables → Tables
purged c host now t =
    if eqb c.mirror_ttl 0 then t else purge_stale c.format host (now - c.mirror_ttl) t

-- A successful answer is a sign of life.
abbrev pub finished : Config → Text → ℕ → Plugin × Outcome → Plugin × Outcome
finished c host now (p, error) = (p, error)
finished c host now (p, kept ns) =
    (record p { tables = purged c host now (mark_seen host now 0 p.tables) }, kept ns)

abbrev pub answered : Config → (Text → Bool) → Text → ℕ → Reply → Plugin → Plugin × Outcome
answered c fails host now (nodes rns) p =
    finished c host now (keep_all fails host c.local now rns p)
answered c fails host now unauthorized p =
    (record p { tables = (mark_stale host now p.tables).0 }, error)
answered c fails host now broken p = (p, error)

-- The request to the target goes out where the last test fails.
unfoldable pub mirror :
    Config → (Text → Bool) → (Text → Reply) → Text → Text → ℕ → Plugin → Plugin × Outcome
mirror c fails post op host now p =
    let target = target_plugin c.remote_plugin op in
    if not (contains c.peers host)
    then (p, kept [])
    else if target == []
    then (p, kept [])
    else if target == codes "peer"
    then (p, kept [])
    else answered c fails host now (post target) p
