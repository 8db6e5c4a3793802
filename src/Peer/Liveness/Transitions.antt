-- ===== src/Peer/Liveness/Transitions.antt =====
-- plugins/peer/liveness.go: which breaks are reported.
use mathlib.Core.Option
use supergraph.Common.{
  ℕ, suc, ◌+◌, ◌≡◌, refl, ◌∙◌, inl, inr, Bool, true, false, ◌&&◌, Option, none, some, List, [], ◌∷◌,
  if◌then◌else◌, arith, Bool-cases, length, bytes_eq, is_none, is_some, beq_refl,
}
use supergraph.Common.Bytes.{Text}
use supergraph.Common.Dict.{lookup, lookup-update_all}
use supergraph.Peer.Store.{Tables, PeerState, mark_seen, mark_stale, seen_row, stale_row, is_live}
use supergraph.Peer.Liveness.{
  Attempt, refused, opened, Driver, Live, broken, staled, seen, lags_seen, subscribed, turn,
  run_liveness,
}

-- The attempts that a peer acknowledged.
unfoldable pub connections : List Attempt → ℕ
connections [] = 0
connections (refused u at ∷ attempts) = connections attempts
connections (opened at lags end ∷ attempts) = suc (connections attempts)

-- No statement of the store fails.
pub record IsCalm (d : Driver) : Type 0 where
  pub seen_works : (at : ℕ) → d.seen_fails at ≡ false
  pub stale_works : (at : ℕ) → d.stale_fails at ≡ false

-- The store has a row of a peer, which init_state writes.
abbrev pub is_known : Text → Tables → Bool
is_known host t = is_some (lookup host t.peer_state)

abbrev pub live : Text → Tables → Bool
live host t = is_live (lookup host t.peer_state)

seen_live :
    (d : Driver) (host : Text) (at lag : ℕ) (t : Tables)
    → d.seen_fails at ≡ false
    → is_known host t ≡ true
    → (live host (seen d host at lag t) ≡ true) × (is_known host (seen d host at lag t) ≡ true)
unfolding mark_seen
seen_live d host at lag t w k =
    rw (w, lookup-update_all (seen_row host at lag) host t.peer_state)
      (go (lookup host t.peer_state) k)
  where
    go :
        (x : Option PeerState)
        → is_some x ≡ true
        → (is_live (Option.map (seen_row host at lag host) x) ≡ true)
          × (is_some (Option.map (seen_row host at lag host) x) ≡ true)
    go none h = absurd (cc)
    go (some s) h = rw (beq_refl host) (refl, refl)

lags_live :
    (d : Driver) (host : Text) (lags : List (ℕ × ℕ)) (t : Tables)
    → IsCalm d
    → live host t ≡ true
    → is_known host t ≡ true
    → (live host (lags_seen d host lags t) ≡ true)
      × (is_known host (lags_seen d host lags t) ≡ true)
unfolding lags_seen
lags_live d host [] t calm l k = (l, k)
lags_live d host ((at, lag) ∷ lags) t calm l k =
    let next = seen_live d host at lag t (calm.seen_works at) k in
    lags_live d host lags (seen d host at lag t) calm next.0 next.1

-- A break marks the peer's row, and is a transition if the row was live.
staled_lem :
    (d : Driver) (host : Text) (at : ℕ) (t : Tables)
    → IsCalm d
    → is_known host t ≡ true
    → ((staled d host at t).1 ≡ live host t)
      × (live host (staled d host at t).0 ≡ false)
      × (is_known host (staled d host at t).0 ≡ true)
unfolding mark_stale
staled_lem d host at t calm k =
    rw (calm.stale_works at, lookup-update_all (stale_row host at) host t.peer_state)
      (go (lookup host t.peer_state) k)
  where
    go :
        (x : Option PeerState)
        → is_some x ≡ true
        → (is_live x ≡ is_live x)
          × (is_live (Option.map (stale_row host at host) x) ≡ false)
          × (is_some (Option.map (stale_row host at host) x) ≡ true)
    go none h = absurd (cc)
    go (some s) h = elim (Bool-cases (is_none s.stale_since)) [
      | inl e ↦ rw (beq_refl host, e) (refl, refl, refl)
      | inr e ↦ rw (beq_refl host, e) (refl, e, refl)
    ]

-- A break of a peer that the store has as live and that was up is yet to be reported.
abbrev pub is_owed : Text → Live → Bool
is_owed host s = live host s.tables && s.ever_up

broken_lem :
    (most : ℕ) (host : Text) (a : Attempt) (s : Live) (x : Tables × Bool)
    → x.1 ≡ live host s.tables
    → live host x.0 ≡ false
    → is_known host x.0 ≡ true
    → (length (broken most a s x).emitted ≡ length s.emitted + (if is_owed host s then 1 else 0))
      × (is_owed host (broken most a s x) ≡ false)
      × (is_known host (broken most a s x).tables ≡ true)
broken_lem most host a s (t, transition) e l k = (ground (arith, e), ground (arith, l), k)

turn_reports :
    (d : Driver) (most : ℕ) (host : Text) (a : Attempt) (s : Live)
    → IsCalm d
    → is_known host s.tables ≡ true
    → is_owed host s ≡ false
    → (length (turn d most host a s).emitted ≡ length s.emitted + connections (a ∷ []))
      × (is_owed host (turn d most host a s) ≡ false)
      × (is_known host (turn d most host a s).tables ≡ true)
unfolding turn connections
turn_reports d most host (refused u at) s calm k o =
    let (t, l, n) = staled_lem d host at s.tables calm k in
    let (e, q, m) = broken_lem most host (refused u at) s (staled d host at s.tables) t l n in
    (e ∙ rw o refl, q, m)
turn_reports d most host (opened at lags end) s calm k o =
    let first = seen_live d host at 0 s.tables (calm.seen_works at) k in
    let (up, n) = lags_live d host lags (seen d host at 0 s.tables) calm first.0 first.1 in
    let s2 = subscribed d host (opened at lags end) s in
    let (t, l, m) = staled_lem d host end s2.tables calm n in
    let (e, q, r) =
      broken_lem most host (opened at lags end) s2 (staled d host end s2.tables) t l m in
    (e ∙ rw up refl, q, r)

-- From a start where the peer has a row, which is stale or the peer was not up since, and with no
-- statement that fails, the number of new events peer.stale is that of the subscriptions that the peer
-- acknowledged, whatever was refused between them: each break of one is reported once, and a peer that
-- was never up is not reported.
pub run_liveness_reports :
    (d : Driver) (most : ℕ) (host : Text) (attempts : List Attempt) (s : Live)
    → IsCalm d
    → is_known host s.tables ≡ true
    → is_owed host s ≡ false
    → length (run_liveness d most host attempts s).emitted ≡ length s.emitted + connections attempts
unfolding run_liveness connections
run_liveness_reports d most host [] s calm k o = omega arith
run_liveness_reports d most host (a ∷ attempts) s calm k o =
    let (e, q, m) = turn_reports d most host a s calm k o in
    run_liveness_reports d most host attempts (turn d most host a s) calm m q ∙ count a e
  where
    count :
        (x : Attempt)
        → length (turn d most host x s).emitted ≡ length s.emitted + connections (x ∷ [])
        → length (turn d most host x s).emitted + connections attempts
          ≡ length s.emitted + connections (x ∷ attempts)
    count (refused u at) e = omega (arith, e)
    count (opened at lags end) e = omega (arith, e)
