-- ===== src/Github/Proxy/Reads.antt =====
-- plugins/github/proxy.go: when a read asks GitHub.
use supergraph.Common.{
  ℕ, ◌≡◌, refl, ap, sym, ◌∙◌, inl, inr, Bool, true, false, ◌&&◌, ◌||◌, not, Option, none, some, [],
  ◌∷◌, bytes_eq, if◌then◌else◌, eqb, arith, Bool-cases, beq_refl, is_some,
}
use supergraph.Common.Dict.{lookup, lookup-insert}
use supergraph.Common.Bytes.{Text}
use supergraph.Github.Keys.{rest_path, kind_of}
use supergraph.Github.Plugin.{Plugin}
use supergraph.Github.Store.{Node, Tables, Driver, Got, got, get_error, get, upsert}
use supergraph.Github.Proxy.{
  Upstream, Config, Reply, no_reply, reply, Fetched, served, failed, fetch_node, replied, landed,
  chosen, canonical_body, new_node, written, has_hash, etag_of, expired, fetched, looked_up,
  resolve,
}

-- Whether a read asks GitHub, by what the cache gives.
abbrev pub needs_fetch : Config → ℕ → Got → Bool
needs_fetch c now get_error = false
needs_fetch c now (got none) = true
needs_fetch c now (got (some n)) = not (n.pinned || not (expired c now n))

written_asked :
    (p : Plugin) (stored : Option Node) (n : Node) (x : Option Tables)
    → (written p stored n x).0.asked ≡ p.asked
written_asked p stored n none = refl
written_asked p stored n (some t) = elim (Bool-cases (has_hash n.content_hash stored)) [
  | inl e ↦ rw e refl
  | inr e ↦ rw e refl
]

landed_asked :
    (c : Config) (u : Upstream) (d : Driver) (now : ℕ) (key : Text) (stored : Option Node)
    (p : Plugin) (etag : Text) (x : Option Text)
    → (landed c u d now key stored p etag x).0.asked ≡ p.asked
landed_asked c u d now key stored p etag none = refl
landed_asked c u d now key stored p etag (some canonical) =
    written_asked p stored (new_node c u now key etag canonical)
      (upsert d (new_node c u now key etag canonical) p.tables)

replied_asked :
    (c : Config) (u : Upstream) (d : Driver) (now : ℕ) (key : Text) (stored : Option Node)
    (p : Plugin) (r : Reply)
    → (replied c u d now key stored p r).0.asked ≡ p.asked
replied_asked c u d now key stored p no_reply = refl
replied_asked c u d now key stored p (reply status content etag) =
    elim (Bool-cases (eqb status 304 && is_some stored)) [
      | inl m ↦ rw m refl
      | inr m ↦ rw m (elim (Bool-cases (not (eqb status 200))) [
        | inl b ↦ rw b refl
        | inr b ↦ rw b (
            landed_asked c u d now key stored p etag
              (chosen key stored content (canonical_body u key)))
      ])
    ]

fetched_asked : (x : Plugin × Fetched) → (fetched x).0.asked ≡ x.0.asked
fetched_asked (p, served n o) = refl
fetched_asked (p, failed) = refl

fetch_asked :
    (c : Config) (u : Upstream) (d : Driver) (now : ℕ) (key : Text) (stored : Option Node)
    (p : Plugin)
    → (fetched (fetch_node c u d now key stored p)).0.asked ≡ rest_path key ∷ p.asked
unfolding fetch_node
fetch_asked c u d now key stored p =
    fetched_asked (fetch_node c u d now key stored p)
    ∙ replied_asked c u d now key stored (record p { asked = rest_path key ∷ p.asked })
        (u.get_rest (rest_path key) (etag_of stored))

-- A read requests the path of its key once where the cache has no node of it, or one that is not
-- pinned and past its time; in every other case it requests nothing, whatever GitHub would answer.
resolve_asked :
    (c : Config) (u : Upstream) (d : Driver) (now : ℕ) (key : Text) (p : Plugin)
    → (resolve c u d now key p).0.asked
      ≡ (if needs_fetch c now (get d key p.tables) then rest_path key ∷ p.asked else p.asked)
unfolding resolve
resolve_asked c u d now key p = go (get d key p.tables)
  where
    go :
        (g : Got)
        → (looked_up c u d now key p g).0.asked
          ≡ (if needs_fetch c now g then rest_path key ∷ p.asked else p.asked)
    go get_error = refl
    go (got none) = fetch_asked c u d now key none p
    go (got (some n)) = elim (Bool-cases (n.pinned || not (expired c now n))) [
      | inl e ↦ rw e refl
      | inr e ↦ rw e (fetch_asked c u d now key (some n) p)
    ]

-- Nothing but a write of the key serves a node where none was.
IsStored : Text → Plugin × Got → Type 0
IsStored key (p, get_error) = Unit {0}
IsStored key (p, got none) = Unit {0}
IsStored key (p, got (some n)) = lookup key p.tables.github_nodes ≡ some n

written-IsStored :
    (d : Driver) (p : Plugin) (n : Node)
    → IsStored n.key (fetched (written p none n (upsert d n p.tables)))
unfolding upsert IsStored
written-IsStored d p n = elim (Bool-cases (d.upsert_fails n.key)) [
  | inl e ↦ rw e tt
  | inr e ↦ rw e (ground (arith, lookup-insert n.key n.key n p.tables.github_nodes, beq_refl n.key))
]

replied-IsStored :
    (c : Config) (u : Upstream) (d : Driver) (now : ℕ) (key : Text) (p : Plugin) (r : Reply)
    → IsStored key (fetched (replied c u d now key none p r))
unfolding IsStored
replied-IsStored c u d now key p no_reply = tt
replied-IsStored c u d now key p (reply status content etag) =
    elim (Bool-cases (eqb status 304 && false)) [
      | inl m ↦ absurd (ground (arith, m))
      | inr m ↦ rw m (elim (Bool-cases (not (eqb status 200))) [
        | inl b ↦ rw b tt
        | inr b ↦ rw b (go (chosen key none content (canonical_body u key)))
      ])
    ]
  where
    go : (x : Option Text) → IsStored key (fetched (landed c u d now key none p etag x))
    go none = tt
    go (some canonical) = written-IsStored d p (new_node c u now key etag canonical)

got_inj : {a b : Option Node} → got a ≡ got b → a ≡ b
got_inj e = cc

-- Where no kind has a time to live, a node that a read served is served again by every later read whose
-- look into the cache does not fail, whatever GitHub answers then, with no request, no write and no
-- event.
pub resolve-resolve :
    (c : Config) (u u2 : Upstream) (d : Driver) (now later : ℕ) (key : Text) (p : Plugin) (n : Node)
    → ((kind : Text) → c.ttl kind ≡ 0)
    → d.select_fails key ≡ false
    → (resolve c u d now key p).1 ≡ got (some n)
    → resolve c u2 d later key (resolve c u d now key p).0
      ≡ ((resolve c u d now key p).0, got (some n))
unfolding resolve IsStored
resolve-resolve c u u2 d now later key p n no_ttl s h =
    again (looked_up c u d now key p (get d key p.tables)) (first (get d key p.tables) refl) h
  where
    never_expired : (at : ℕ) (m : Node) → expired c at m ≡ false
    never_expired at m = unfold expired in ground (arith, no_ttl (kind_of m.key))

    hit : (m : Node) (at : ℕ) → (m.pinned || not (expired c at m)) ≡ true
    hit m at = ground (arith, never_expired at m)

    gets : (t : Tables) → get d key t ≡ got (lookup key t.github_nodes)
    gets t = unfold get in rw s refl

    found :
        (m : Node) → get d key p.tables ≡ got (some m) → lookup key p.tables.github_nodes ≡ some m
    found m e = got_inj (sym (gets p.tables) ∙ e)

    first : (g : Got) → get d key p.tables ≡ g → IsStored key (looked_up c u d now key p g)
    first get_error e = tt
    first (got none) e =
        unfold fetch_node in
        replied-IsStored c u d now key (record p { asked = rest_path key ∷ p.asked })
          (u.get_rest (rest_path key) [])
    first (got (some m)) e = rw (hit m now) (found m e)

    again :
        (x : Plugin × Got)
        → IsStored key x
        → x.1 ≡ got (some n)
        → looked_up c u2 d later key x.0 (get d key x.0.tables) ≡ (x.0, got (some n))
    again (q, get_error) i e = absurd (cc)
    again (q, got none) i e = absurd (cc)
    again (q, got (some m)) i e = rw (gets q.tables, i, hit m later) (ap (λ g. (q, g)) e)
