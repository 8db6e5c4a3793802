-- ===== src/Github/Proxy/Updates.antt =====
-- plugins/github/proxy.go: when a fetch tells of an update, and what it leaves in the cache.
use mathlib.Core.Option
use supergraph.Common.{
  ℕ, ◌≡◌, refl, sym, ◌∙◌, inl, inr, Bool, true, false, ◌&&◌, not, Option, none, some, List, ◌∷◌,
  bytes_eq, ◌==◌, if◌then◌else◌, eqb, arith, Bool-cases, beq_refl, is_some,
}
use supergraph.Common.Dict.{lookup, insert, lookup-insert, lookup-update_all}
use supergraph.Common.Bytes.{Text}
use supergraph.Github.Keys.{rest_path}
use supergraph.Github.Plugin.{Plugin, GithubEvent, node_updated}
use supergraph.Github.Store.{Node, Tables, Driver, upsert, bump_fetched, bumped}
use supergraph.Github.Proxy.{
  Upstream, Config, Reply, no_reply, reply, fetch_node, replied, landed, chosen, canonical_body,
  new_node, written, has_hash, etag_of,
}

abbrev pub same_hash : Option Node → Option Node → Bool
same_hash none none = true
same_hash none (some b) = false
same_hash (some a) none = false
same_hash (some a) (some b) = a.content_hash == b.content_hash

abbrev pub updates : Option Node → List GithubEvent → List GithubEvent
updates none es = es
updates (some n) es = node_updated n ∷ es

-- What is emitted where a node was, and where one is now.
abbrev pub events_for : Option Node → Option Node → List GithubEvent → List GithubEvent
events_for before after es = if same_hash before after then es else updates after es

same_hash_refl : (x : Option Node) → same_hash x x ≡ true
same_hash_refl none = refl
same_hash_refl (some n) = beq_refl n.content_hash

abbrev at : Text → Tables → Option Node
at key t = lookup key t.github_nodes

quiet :
    (before after : Option Node) (es : List GithubEvent)
    → same_hash before after ≡ true
    → es ≡ events_for before after es
quiet before after es h = rw h refl

same_row :
    (key : Text) (stored : Option Node) (p : Plugin)
    → at key p.tables ≡ stored
    → p.emitted ≡ events_for stored (at key p.tables) p.emitted
same_row key stored p h = rw h (quiet stored stored p.emitted (same_hash_refl stored))

same_hash-bumped :
    (key : Text) (now : ℕ) (stored : Option Node)
    → same_hash stored (Option.map (bumped key now key) stored) ≡ true
same_hash-bumped key now none = refl
same_hash-bumped key now (some n) = ground (arith, beq_refl n.content_hash, beq_refl key)

bump_kept :
    (d : Driver) (key : Text) (now : ℕ) (stored : Option Node) (p : Plugin)
    → at key p.tables ≡ stored
    → p.emitted ≡ events_for stored (at key (bump_fetched d key now p.tables)) p.emitted
unfolding bump_fetched
bump_kept d key now stored p h = elim (Bool-cases (d.bump_fails key)) [
  | inl e ↦ rw e (same_row key stored p h)
  | inr e ↦ rw e (
      rw (lookup-update_all (bumped key now) key p.tables.github_nodes, h)
        (quiet stored _ p.emitted (same_hash-bumped key now stored)))
]

has_hash_same :
    (n : Node) (stored : Option Node) → has_hash n.content_hash stored ≡ same_hash stored (some n)
has_hash_same n none = refl
has_hash_same n (some m) = refl

written_events :
    (d : Driver) (stored : Option Node) (p : Plugin) (n : Node)
    → at n.key p.tables ≡ stored
    → (written p stored n (upsert d n p.tables)).0.emitted
      ≡ events_for stored (at n.key (written p stored n (upsert d n p.tables)).0.tables) p.emitted
unfolding upsert
written_events d stored p n h = elim (Bool-cases (d.upsert_fails n.key)) [
  | inl e ↦ rw e (same_row n.key stored p h)
  | inr e ↦ rw e (elim (Bool-cases (has_hash n.content_hash stored)) [
    | inl s ↦ rw s (rw (there) (quiet stored (some n) p.emitted (sym (has_hash_same n stored) ∙ s)))
    | inr s ↦ rw s (rw (there, sym (has_hash_same n stored) ∙ s) refl)
  ])
]
  where
    there : lookup n.key (insert n.key n p.tables.github_nodes) ≡ some n
    there = ground (arith, lookup-insert n.key n.key n p.tables.github_nodes, beq_refl n.key)

landed_events :
    (c : Config) (u : Upstream) (d : Driver) (now : ℕ) (key : Text) (stored : Option Node)
    (p : Plugin) (etag : Text) (x : Option Text)
    → at key p.tables ≡ stored
    → (landed c u d now key stored p etag x).0.emitted
      ≡ events_for stored (at key (landed c u d now key stored p etag x).0.tables) p.emitted
landed_events c u d now key stored p etag none h = same_row key stored p h
landed_events c u d now key stored p etag (some canonical) h =
    written_events d stored p (new_node c u now key etag canonical) h

replied_events :
    (c : Config) (u : Upstream) (d : Driver) (now : ℕ) (key : Text) (stored : Option Node)
    (p : Plugin) (r : Reply)
    → at key p.tables ≡ stored
    → (replied c u d now key stored p r).0.emitted
      ≡ events_for stored (at key (replied c u d now key stored p r).0.tables) p.emitted
replied_events c u d now key stored p no_reply h = same_row key stored p h
replied_events c u d now key stored p (reply status content etag) h =
    elim (Bool-cases (eqb status 304 && is_some stored)) [
      | inl m ↦ rw m (bump_kept d key now stored p h)
      | inr m ↦ rw m (elim (Bool-cases (not (eqb status 200))) [
        | inl b ↦ rw b (same_row key stored p h)
        | inr b ↦ rw b (
            landed_events c u d now key stored p etag
              (chosen key stored content (canonical_body u key)) h)
      ])
    ]

-- Whatever GitHub answers and whichever statement fails, a fetch of a key whose cached node was handed
-- to it emits one event of an update, with the node that is cached then, if the content hash under the
-- key is a new one, and nothing if it is the one from before; an answer that fails or is not found
-- and one of no change thus emit nothing.
pub fetch_node-events_for :
    (c : Config) (u : Upstream) (d : Driver) (now : ℕ) (key : Text) (stored : Option Node)
    (p : Plugin)
    → lookup key p.tables.github_nodes ≡ stored
    → (fetch_node c u d now key stored p).0.emitted
      ≡ events_for stored
          (lookup key (fetch_node c u d now key stored p).0.tables.github_nodes)
          p.emitted
unfolding fetch_node
fetch_node-events_for c u d now key stored p h =
    replied_events c u d now key stored (record p { asked = rest_path key ∷ p.asked })
      (u.get_rest (rest_path key) (etag_of stored)) h
