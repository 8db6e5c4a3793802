-- ===== src/Peer/Mirror/Kept.antt =====
-- plugins/peer/mirror.go: which nodes of an answer are kept.
use supergraph.Common.{
  ℕ, ◌≡◌, refl, inl, inr, Bool, true, false, not, List, [], ◌∷◌, codes, bytes_eq, ◌==◌, contains,
  Bool-cases, select, map,
}
use supergraph.Common.Bytes.{Text}
use supergraph.Peer.Store.{MirroredNode}
use supergraph.Peer.Mirror.{
  Config, Plugin, RemoteNode, Reply, nodes, Outcome, kept, error, dropped, keep_all, cons_kept,
  keep_node, mirrored, mirror, finished, target_plugin,
}

abbrev pub survivors : Text → Text → List RemoteNode → List RemoteNode
survivors host local = select (λ rn. not (dropped host local rn.key))

cons_kept_lem :
    (n : MirroredNode) (ns : List MirroredNode) (r : Plugin × Outcome)
    → r.1 ≡ kept ns
    → (cons_kept n r).1 ≡ kept (n ∷ ns)
cons_kept_lem n ns (p, o) e = rw e refl

keep_all_kept :
    (fails : Text → Bool) (host local : Text) (now : ℕ) (rns : List RemoteNode) (p : Plugin)
    → ((key : Text) → fails key ≡ false)
    → (keep_all fails host local now rns p).1
      ≡ kept (map (mirrored host now) (survivors host local rns))
unfolding keep_all
keep_all_kept fails host local now [] p ok = refl
keep_all_kept fails host local now (rn ∷ rns) p ok = elim (Bool-cases (dropped host local rn.key)) [
  | inl e ↦ rw e (keep_all_kept fails host local now rns p ok)
  | inr e ↦
      rw (e, ok rn.key)
        (cons_kept_lem (mirrored host now rn) (map (mirrored host now) (survivors host local rns))
          (keep_all fails host local now rns (keep_node (mirrored host now rn) p))
          (keep_all_kept fails host local now rns (keep_node (mirrored host now rn) p) ok))
]

finished_kept :
    (c : Config) (host : Text) (now : ℕ) (ns : List MirroredNode) (r : Plugin × Outcome)
    → r.1 ≡ kept ns
    → (finished c host now r).1 ≡ kept ns
finished_kept c host now ns (p, kept ms) e = e
finished_kept c host now ns (p, error) e = e

-- Of a configured peer's answer, where a source plugin other than peer serves the op and no statement
-- fails, exactly the nodes that pass both loop guards are returned, in the order of the answer.
mirror_kept :
    (c : Config) (fails : Text → Bool) (post : Text → Reply) (op host : Text) (now : ℕ) (p : Plugin)
    (rns : List RemoteNode)
    → contains c.peers host ≡ true
    → (target_plugin c.remote_plugin op == []) ≡ false
    → (target_plugin c.remote_plugin op == codes "peer") ≡ false
    → post (target_plugin c.remote_plugin op) ≡ nodes rns
    → ((key : Text) → fails key ≡ false)
    → (mirror c fails post op host now p).1
      ≡ kept (map (mirrored host now) (survivors host c.local rns))
unfolding mirror
mirror_kept c fails post op host now p rns known some_target no_peer reply ok =
    rw (known, some_target, no_peer, reply)
      (finished_kept c host now (map (mirrored host now) (survivors host c.local rns))
        (keep_all fails host c.local now rns p) (keep_all_kept fails host c.local now rns p ok))
