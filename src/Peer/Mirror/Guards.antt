-- ===== src/Peer/Mirror/Guards.antt =====
-- plugins/peer/mirror.go: no row of a third box, and no echo of this one.
use supergraph.Common.{
  ℕ, ◌≡◌, refl, sym, inl, inr, Bool, true, false, ◌&&◌, List, [], ◌∷◌, codes, bytes_eq, ◌==◌,
  if◌then◌else◌, contains, arith, Bool-cases, eqb, ◌-◌,
}
use mathlib.Core.Path.{subst}
use supergraph.Common.Dict.{insert}
use supergraph.Common.Bytes.{Text}
use supergraph.Peer.Store.{
  MirroredNode, upsert_node, before, drop_before, purge_stale, mark_seen, mark_stale,
}
use supergraph.Peer.Mirror.{
  Config, Plugin, RemoteNode, Reply, nodes, unauthorized, broken, Outcome, kept, error, dropped,
  host_of, keep_all, cons_kept, keep_node, answered, finished, mirrored, mirror, target_plugin,
}

-- A row that its own box gave, and this box is another.
abbrev pub IsFirstHop : Text → MirroredNode → Type 0
IsFirstHop local n = (host_of n.key ≡ n.host) × ((host_of n.key == local) ≡ false)

abbrev pub AreFirstHop : Text → List (Text × MirroredNode) → Type 0
AreFirstHop local [] = Unit
AreFirstHop local ((k, n) ∷ m) = IsFirstHop local n × AreFirstHop local m

insert-AreFirstHop :
    (local : Text) (k : Text) (n : MirroredNode) (m : List (Text × MirroredNode))
    → IsFirstHop local n
    → AreFirstHop local m
    → AreFirstHop local (insert k n m)
unfolding insert
insert-AreFirstHop local k n [] h _ = (h, tt)
insert-AreFirstHop local k n ((j, o) ∷ m) h (ho, hs) = elim (Bool-cases (j == k)) [
  | inl e ↦ rw e (h, hs)
  | inr e ↦ rw e (ho, insert-AreFirstHop local k n m h hs)
]

either :
    (local : Text) (b : Bool) (x y : List (Text × MirroredNode))
    → AreFirstHop local x
    → AreFirstHop local y
    → AreFirstHop local (if b then x else y)
either local true x y h _ = h
either local false x y _ h = h

drop_before-AreFirstHop :
    (local : Text) (format : ℕ → Text) (host : Text) (cutoff : ℕ) (m : List (Text × MirroredNode))
    → AreFirstHop local m
    → AreFirstHop local (drop_before format host cutoff m)
unfolding drop_before
drop_before-AreFirstHop local format host cutoff [] _ = tt
drop_before-AreFirstHop local format host cutoff ((j, n) ∷ m) (h, hs) =
    let rest = drop_before format host cutoff m in
    let ok = drop_before-AreFirstHop local format host cutoff m hs in
    either local (n.host == host && before (format n.last_seen_at) (format cutoff)) rest
      ((j, n) ∷ rest) ok (h, ok)

guarded :
    (host local : Text) (now : ℕ) (rn : RemoteNode)
    → dropped host local rn.key ≡ false
    → IsFirstHop local (mirrored host now rn)
unfolding dropped
guarded host local now rn h =
    ((bytes_eq.same_iff (host_of rn.key) host).0 (ground arith), ground arith)

-- What holds of the plugin's rows and of what it emitted.
abbrev EmittedFirstHop : Text → List MirroredNode → Type 0
EmittedFirstHop local [] = Unit
EmittedFirstHop local (n ∷ ns) = IsFirstHop local n × EmittedFirstHop local ns

abbrev pub HasFirstHops : Text → Plugin → Type 0
HasFirstHops local p = AreFirstHop local p.tables.peer_nodes × EmittedFirstHop local p.emitted

keep_node-HasFirstHops :
    (local : Text) (n : MirroredNode) (p : Plugin)
    → IsFirstHop local n
    → HasFirstHops local p
    → HasFirstHops local (keep_node n p)
unfolding upsert_node
keep_node-HasFirstHops local n p h (rows, es) =
    (insert-AreFirstHop local n.key n p.tables.peer_nodes h rows, (h, es))

cons_kept_plugin : (n : MirroredNode) (r : Plugin × Outcome) → (cons_kept n r).0 ≡ r.0
cons_kept_plugin n (p, kept ns) = refl
cons_kept_plugin n (p, error) = refl

keep_all-HasFirstHops :
    (fails : Text → Bool) (host local : Text) (now : ℕ) (rns : List RemoteNode) (p : Plugin)
    → HasFirstHops local p
    → HasFirstHops local (keep_all fails host local now rns p).0
unfolding keep_all
keep_all-HasFirstHops fails host local now [] p h = h
keep_all-HasFirstHops fails host local now (rn ∷ rns) p h =
    elim (Bool-cases (dropped host local rn.key)) [
      | inl e ↦ rw e (keep_all-HasFirstHops fails host local now rns p h)
      | inr e ↦ rw e (elim (Bool-cases (fails rn.key)) [
        | inl bad ↦ rw bad h
        | inr ok ↦ rw ok (
            subst (HasFirstHops local)
              (sym (
                cons_kept_plugin (mirrored host now rn)
                  (keep_all fails host local now rns (keep_node (mirrored host now rn) p))))
              (keep_all-HasFirstHops fails host local now rns (keep_node (mirrored host now rn) p) (
                keep_node-HasFirstHops local (mirrored host now rn) p (guarded host local now rn e)
                  h)))
      ])
    ]

finished-HasFirstHops :
    (c : Config) (host : Text) (now : ℕ) (r : Plugin × Outcome)
    → HasFirstHops c.local r.0
    → HasFirstHops c.local (finished c host now r).0
unfolding mark_seen purge_stale
finished-HasFirstHops c host now (p, error) h = h
finished-HasFirstHops c host now (p, kept ns) (rows, es) = elim (Bool-cases (eqb c.mirror_ttl 0)) [
  | inl e ↦ rw e (rows, es)
  | inr e ↦ rw e (
    drop_before-AreFirstHop c.local c.format host (now - c.mirror_ttl) p.tables.peer_nodes rows,
    es,
  )
]

answered-HasFirstHops :
    (c : Config) (fails : Text → Bool) (host : Text) (now : ℕ) (reply : Reply) (p : Plugin)
    → HasFirstHops c.local p
    → HasFirstHops c.local (answered c fails host now reply p).0
unfolding mark_stale
answered-HasFirstHops c fails host now (nodes rns) p h =
    finished-HasFirstHops c host now (keep_all fails host c.local now rns p)
      (keep_all-HasFirstHops fails host c.local now rns p h)
answered-HasFirstHops c fails host now unauthorized p h = h
answered-HasFirstHops c fails host now broken p h = h

-- Whatever the peers answer and whichever statements fail, a mirrored op leaves no row and emits no
-- node but those whose key carries the host that gave it and not this box's own, if that was so
-- before.
pub mirror-HasFirstHops :
    (c : Config) (fails : Text → Bool) (post : Text → Reply) (op host : Text) (now : ℕ) (p : Plugin)
    → HasFirstHops c.local p
    → HasFirstHops c.local (mirror c fails post op host now p).0
unfolding mirror
mirror-HasFirstHops c fails post op host now p h = elim (Bool-cases (contains c.peers host)) [
  | inr e ↦ rw e h
  | inl e ↦ rw e (elim (Bool-cases (target == [])) [
    | inl e1 ↦ rw e1 h
    | inr e1 ↦ rw e1 (elim (Bool-cases (target == codes "peer")) [
      | inl e2 ↦ rw e2 h
      | inr e2 ↦ rw e2 (answered-HasFirstHops c fails host now (post target) p h)
    ])
  ])
]
  where
    target : Text
    target = target_plugin c.remote_plugin op
