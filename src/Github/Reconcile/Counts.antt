-- ===== src/Github/Reconcile/Counts.antt =====
-- plugins/github/reconcile.go: the tally of a pass and what the pass emits.
use supergraph.Common.{
  ℕ, suc, ◌+◌, ◌≤◌, ◌≡◌, refl, inl, inr, false, ◌&&◌, not, Option, none, some, List, [], ◌∷◌,
  bytes_eq, eqb, arith, Bool-cases, length, is_some,
}
use supergraph.Common.Bytes.{Text}
use supergraph.Github.Keys.{rest_path}
use supergraph.Github.Plugin.{Plugin}
use supergraph.Github.Store.{Node, Tables, upsert, non_pinned_nodes}
use supergraph.Github.Executor.{Context}
use supergraph.Github.Proxy.{
  Fetched, Outcome, other, not_modified, unchanged, changed, Reply, no_reply, reply, fetch_node,
  replied, landed, written, has_hash, chosen, canonical_body, new_node, etag_of,
}
use supergraph.Github.Reconcile.{
  World, Tally, outcome_of, count, counted, revalidate_nodes, revalidate, no_tally,
}

abbrev pub is_changed : Outcome → ℕ
is_changed other = 0
is_changed not_modified = 0
is_changed unchanged = 0
is_changed changed = 1

-- A fetch emits one event if its outcome is a change, and none otherwise.
Tells : Plugin → Plugin × Fetched → Type 0
Tells p x = length x.0.emitted ≡ length p.emitted + is_changed (outcome_of x.1)

written-Tells :
    (p : Plugin) (s : Option Node) (n : Node) (x : Option Tables) → Tells p (written p s n x)
unfolding Tells
written-Tells p s n none = omega arith
written-Tells p s n (some t) = elim (Bool-cases (has_hash n.content_hash s)) [
  | inl e ↦ rw e (omega arith)
  | inr e ↦ rw e (omega arith)
]

-- From a state and a tally to the next ones, over some nodes.
abbrev pub IsTallied : ℕ → Plugin → Tally → Plugin × Tally → Type 0
IsTallied n p t x =
    (length x.0.emitted + t.altered ≡ length p.emitted + x.1.altered)
    × (x.1.checked ≡ t.checked + n)
    × (x.1.altered + t.landed ≤ x.1.landed + t.altered)

count-IsTallied :
    (n : ℕ) (p q : Plugin) (t : Tally) (o : Outcome) (x : Plugin × Tally)
    → length q.emitted ≡ length p.emitted + is_changed o
    → IsTallied n q (count o t) x
    → IsTallied (suc n) p t x
count-IsTallied n p q t other x h (e, k, l) =
    (omega (arith, h, e), omega (arith, k), omega (arith, l))
count-IsTallied n p q t not_modified x h (e, k, l) =
    (omega (arith, h, e), omega (arith, k), omega (arith, l))
count-IsTallied n p q t unchanged x h (e, k, l) =
    (omega (arith, h, e), omega (arith, k), omega (arith, l))
count-IsTallied n p q t changed x h (e, k, l) =
    (omega (arith, h, e), omega (arith, k), omega (arith, l))

module _ (c : Context) where
  fetch_node-Tells :
      (key : Text) (s : Option Node) (p : Plugin)
      → Tells p (fetch_node c.config c.upstream c.driver c.now key s p)
  unfolding fetch_node Tells
  fetch_node-Tells key s p = go (c.upstream.get_rest (rest_path key) (etag_of s))
    where
      q : Plugin
      q = record p { asked = rest_path key ∷ p.asked }

      lands :
          (etag : Text) (x : Option Text)
          → Tells p (landed c.config c.upstream c.driver c.now key s q etag x)
      lands etag none = omega arith
      lands etag (some canonical) =
          written-Tells q s (new_node c.config c.upstream c.now key etag canonical)
            (upsert c.driver (new_node c.config c.upstream c.now key etag canonical) p.tables)

      go : (r : Reply) → Tells p (replied c.config c.upstream c.driver c.now key s q r)
      go no_reply = omega arith
      go (reply status content etag) = elim (Bool-cases (eqb status 304 && is_some s)) [
        | inl m ↦ rw m (omega arith)
        | inr m ↦ rw m (elim (Bool-cases (not (eqb status 200))) [
          | inl b ↦ rw b (omega arith)
          | inr b ↦ rw b (lands etag (chosen key s content (canonical_body c.upstream key)))
        ])
      ]

  revalidate_nodes-IsTallied :
      (nodes : List Node) (p : Plugin) (t : Tally)
      → IsTallied (length nodes) p t (revalidate_nodes c nodes p t)
  unfolding revalidate_nodes
  revalidate_nodes-IsTallied [] p t = (refl, omega arith, omega arith)
  revalidate_nodes-IsTallied (n ∷ nodes) p t =
      go (revalidate_nodes-IsTallied nodes)
        (fetch_node c.config c.upstream c.driver c.now n.key (some n) p)
        (fetch_node-Tells n.key (some n) p)
    where
      go :
          ((q : Plugin) (u : Tally) → IsTallied (length nodes) q u (revalidate_nodes c nodes q u))
          → (x : Plugin × Fetched) → Tells p x
          → IsTallied (suc (length nodes)) p t (counted (revalidate_nodes c nodes) x t)
      go rest (q, f) h =
          count-IsTallied (length nodes) p q t (outcome_of f)
            (revalidate_nodes c nodes q (count (outcome_of f) t)) (unfold Tells in h)
            (rest q (count (outcome_of f) t))

-- A pass of revalidation checks each cached node that is neither pinned nor a list once, and the
-- number of changes in its tally is that of the events of an update that it emitted and at most that
-- of the bodies that it fetched.
pub revalidate-IsTallied :
    (w : World) (p : Plugin)
    → w.scan_nodes_fails ≡ false
    → ((revalidate w p).1.checked ≡ length (non_pinned_nodes p.tables.github_nodes))
      × (length (revalidate w p).0.emitted ≡ length p.emitted + (revalidate w p).1.altered)
      × ((revalidate w p).1.altered ≤ (revalidate w p).1.landed)
unfolding revalidate
revalidate-IsTallied w p h = rw h (
    let (e, k, l) =
      revalidate_nodes-IsTallied w.context (non_pinned_nodes p.tables.github_nodes) p no_tally in
    (omega (arith, k), omega (arith, e), omega (arith, l)))
