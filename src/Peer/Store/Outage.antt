-- ===== src/Peer/Store/Outage.antt =====
-- plugins/peer/store.go: the stale mark over an outage.
use mathlib.Core.Option
use supergraph.Common.{
  ℕ, ◌≡◌, refl, ap, ◌∙◌, true, false, none, some, List, [], ◌∷◌, bytes_eq, is_none, arith, beq_refl,
}
use supergraph.Common.Dict.{lookup-update_all}
use supergraph.Common.Bytes.{Text}
use supergraph.Peer.Store.{PeerState, Tables, mark_stale, stale_row, state, is_live}

state-mark_stale :
    (host : Text) (at : ℕ) (t : Tables) (h : Text)
    → state h (mark_stale host at t).0 ≡ Option.map (stale_row host at h) (state h t)
unfolding state mark_stale
state-mark_stale host at t h = lookup-update_all (stale_row host at) h t.peer_state

-- Failures of a peer, the oldest first, each at its time; other peers fail in between.
unfoldable pub failures : List (Text × ℕ) → Tables → Tables
failures [] t = t
failures ((host, at) ∷ fs) t = failures fs (mark_stale host at t).0

stays :
    (host : Text) (at : ℕ) (h : Text) (s : PeerState) (first : ℕ)
    → s.stale_since ≡ some first
    → stale_row host at h s ≡ s
stays host at h s first e = rw e (ground arith)

failures_keep :
    (fs : List (Text × ℕ)) (t : Tables) (host : Text) (s : PeerState) (first : ℕ)
    → state host t ≡ some s
    → s.stale_since ≡ some first
    → state host (failures fs t) ≡ some s
unfolding failures
failures_keep [] t host s first here e = here
failures_keep ((h, at) ∷ fs) t host s first here e =
    failures_keep fs (mark_stale h at t).0 host s first
      (state-mark_stale h at t host
        ∙ ap (Option.map (stale_row h at host)) here
        ∙ ap some (stays h at host s first e))
      e

marks :
    (host : Text) (at : ℕ) (t : Tables) (s : PeerState)
    → state host t ≡ some s
    → (mark_stale host at t).1 ≡ is_none s.stale_since
unfolding mark_stale state
marks host at t s here = ap is_live here

-- The first failure of a live peer is reported as a transition and sets its stale mark, and through
-- any later failures, of it and of others, its row keeps that mark; another mark of it is no
-- transition.
pub outage_keeps_first :
    (host : Text) (first again : ℕ) (fs : List (Text × ℕ)) (t : Tables) (s : PeerState)
    → state host t ≡ some s
    → s.stale_since ≡ none
    → ((mark_stale host first t).1 ≡ true)
      × (state host (failures fs (mark_stale host first t).0)
          ≡ some (record s { stale_since = some first }))
      × ((mark_stale host again (failures fs (mark_stale host first t).0)).1 ≡ false)
outage_keeps_first host first again fs t s here live = (
  marks host first t s here ∙ ap is_none live,
  after,
  marks host again (failures fs (mark_stale host first t).0) (record s { stale_since = some first })
      after,
)
  where
    after :
        state host (failures fs (mark_stale host first t).0)
        ≡ some (record s { stale_since = some first })
    after =
        failures_keep fs (mark_stale host first t).0 host (record s { stale_since = some first })
          first
          (state-mark_stale host first t host
            ∙ ap (Option.map (stale_row host first host)) here
            ∙ ap some (rw (beq_refl host, live) refl))
          refl
