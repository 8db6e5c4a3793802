-- ===== src/Github/Proxy/Shape.antt =====
-- plugins/github/proxy.go: the shape of the bodies of issues and pull requests in the cache.
use mathlib.Core.Option
use supergraph.Common.{
  ℕ, ◌≡◌, refl, ap, ◌∙◌, inl, inr, ◌⊎◌, true, ◌&&◌, not, Option, none, some, ◌∷◌, bytes_eq, ◌==◌,
  eqb, arith, Bool-cases, beq_refl, is_some,
}
use supergraph.Common.Dict.{lookup, insert, lookup-insert, lookup-update_all}
use supergraph.Common.Bytes.{Text}
use supergraph.Github.Keys.{rest_path, kind_of}
use supergraph.Github.Plugin.{Plugin}
use supergraph.Github.Store.{Node, Tables, Driver, upsert, bump_fetched, bumped}
use supergraph.Github.Proxy.{
  Upstream, Config, Reply, no_reply, reply, fetch_node, replied, landed, chosen, canonical_body,
  new_node, written, point_op, is_graphql_shape,
}

-- Under a key stands a node with the body of another one, or with the canonical body.
abbrev pub Keeps : Upstream → Text → Node → Tables → Type 0
Keeps u key n t =
    (m : Node) × (lookup key t.github_nodes ≡ some m)
    × ((m.json ≡ n.json) ⊎ (canonical_body u key ≡ some m.json))

written-Keeps :
    (u : Upstream) (d : Driver) (p : Plugin) (n m : Node)
    → lookup m.key p.tables.github_nodes ≡ some n
    → canonical_body u m.key ≡ some m.json
    → Keeps u m.key n (written p (some n) m (upsert d m p.tables)).0.tables
unfolding upsert
written-Keeps u d p n m h b = elim (Bool-cases (d.upsert_fails m.key)) [
  | inl e ↦ rw e (n, h, inl refl)
  | inr e ↦ rw e (elim (Bool-cases (n.content_hash == m.content_hash)) [
    | inl s ↦ rw s (m, there, inr b)
    | inr s ↦ rw s (m, there, inr b)
  ])
]
  where
    there : lookup m.key (insert m.key m p.tables.github_nodes) ≡ some m
    there = ground (arith, lookup-insert m.key m.key m p.tables.github_nodes, beq_refl m.key)

bump-Keeps :
    (u : Upstream) (d : Driver) (key : Text) (now : ℕ) (n : Node) (t : Tables)
    → lookup key t.github_nodes ≡ some n
    → Keeps u key n (bump_fetched d key now t)
unfolding bump_fetched
bump-Keeps u d key now n t h = elim (Bool-cases (d.bump_fails key)) [
  | inl e ↦ rw e (n, h, inl refl)
  | inr e ↦ rw e (
    bumped key now key n,
    lookup-update_all (bumped key now) key t.github_nodes ∙ ap (Option.map (bumped key now key)) h,
    inl (ground (arith, beq_refl key)),
  )
]

landed-Keeps :
    (c : Config) (u : Upstream) (d : Driver) (now : ℕ) (key : Text) (n : Node) (p : Plugin)
    (etag content : Text) (b : Option Text)
    → canonical_body u key ≡ b
    → lookup key p.tables.github_nodes ≡ some n
    → is_some (point_op (kind_of key)) ≡ true
    → is_graphql_shape n.json ≡ true
    → Keeps u key n (landed c u d now key (some n) p etag (chosen key (some n) content b)).0.tables
landed-Keeps c u d now key n p etag content (some canonical) e h k s =
    written-Keeps u d p n (new_node c u now key etag canonical) h e
landed-Keeps c u d now key n p etag content none e h k s = rw (k, s) (n, h, inl refl)

-- Where an issue or a pull request is cached with GraphQL's body, a fetch leaves that body, or puts
-- in its place the one that its named op gives, whatever the answers and the failures: REST's body
-- never replaces it.
pub fetch_node-Keeps :
    (c : Config) (u : Upstream) (d : Driver) (now : ℕ) (key : Text) (n : Node) (p : Plugin)
    → lookup key p.tables.github_nodes ≡ some n
    → is_some (point_op (kind_of key)) ≡ true
    → is_graphql_shape n.json ≡ true
    → Keeps u key n (fetch_node c u d now key (some n) p).0.tables
unfolding fetch_node
fetch_node-Keeps c u d now key n p h k s = go (u.get_rest (rest_path key) n.etag)
  where
    asked : Plugin
    asked = record p { asked = rest_path key ∷ p.asked }

    go : (r : Reply) → Keeps u key n (replied c u d now key (some n) asked r).0.tables
    go no_reply = (n, h, inl refl)
    go (reply status content etag) = elim (Bool-cases (eqb status 304 && true)) [
      | inl m ↦ rw m (bump-Keeps u d key now n p.tables h)
      | inr m ↦ rw m (elim (Bool-cases (not (eqb status 200))) [
        | inl b ↦ rw b (n, h, inl refl)
        | inr b ↦
            rw b (landed-Keeps c u d now key n asked etag content (canonical_body u key) refl h k s)
      ])
    ]
