-- ===== src/Peer/Liveness/Backoff.antt =====
-- plugins/peer/liveness.go: how long the loop sleeps.
use supergraph.Common.{
  ℕ, zero, suc, ◌+◌, ◌≤◌, ◌≡◌, refl, ◌∙◌, inl, inr, Bool, List, [], ◌∷◌, if◌then◌else◌, ltb, leb,
  arith, All, Bool-cases, length,
}
use supergraph.Common.Bytes.{Text}
use supergraph.Peer.Store.{Tables}
use supergraph.Peer.Liveness.{
  Attempt, refused, opened, Driver, Live, backoff_initial, next_backoff, broken, staled, subscribed,
  turn, run_liveness,
}

abbrev pub IsRefused : Attempt → Type 0
IsRefused (refused unauthorized at) = Unit
IsRefused (opened at lags end) = ⊥

-- A delay that was doubled some times.
unfoldable pub doublings : ℕ → ℕ → ℕ
doublings zero b = b
doublings (suc n) b = doublings n (b + b)

abbrev pub capped : ℕ → ℕ → ℕ
capped most b = if leb b most then b else most

doublings_grow : (n b : ℕ) → b ≤ doublings n b
unfolding doublings
doublings_grow zero b = omega arith
doublings_grow (suc n) b = omega (arith, doublings_grow n (b + b))

capped_next :
    (n most b : ℕ)
    → b ≤ most
    → capped most (doublings n (next_backoff most b)) ≡ capped most (doublings n (b + b))
capped_next n most b h = elim (Bool-cases (ltb most (b + b))) [
  | inl e ↦ rw e (ground (arith, doublings_grow n most, doublings_grow n (b + b), e))
  | inr e ↦ rw e refl
]

broken_backoff :
    (most : ℕ) (a : Attempt) (s : Live) (x : Tables × Bool)
    → ((broken most a s x).backoff ≡ next_backoff most s.backoff)
      × ((broken most a s x).slept ≡ s.backoff ∷ s.slept)
broken_backoff most a s (t, b) = (refl, refl)

turn_backoff :
    (d : Driver) (most : ℕ) (host : Text) (a : Attempt) (s : Live)
    → ((turn d most host a s).backoff ≡ next_backoff most (subscribed d host a s).backoff)
      × ((turn d most host a s).slept ≡ (subscribed d host a s).backoff ∷ s.slept)
unfolding turn
turn_backoff d most host (refused u at) s =
    broken_backoff most (refused u at) s (staled d host at s.tables)
turn_backoff d most host (opened at lags end) s =
    let up = subscribed d host (opened at lags end) s in
    broken_backoff most (opened at lags end) up (staled d host end up.tables)

next_small : (most b : ℕ) → next_backoff most b ≤ most
next_small most b = ground arith

-- While a peer refuses every subscription, the delay doubles with each and stops at its limit: after
-- n of them it is the delay from before doubled n times, or the limit where that is more.
pub run_liveness_backoff :
    (d : Driver) (most : ℕ) (host : Text) (attempts : List Attempt) (s : Live)
    → s.backoff ≤ most
    → All IsRefused attempts
    → (run_liveness d most host attempts s).backoff
      ≡ capped most (doublings (length attempts) s.backoff)
unfolding run_liveness doublings
run_liveness_backoff d most host [] s h _ = ground (arith, h)
run_liveness_backoff d most host (refused u at ∷ attempts) s h (_, hs) =
    let next = turn_backoff d most host (refused u at) s in
    run_liveness_backoff d most host attempts (turn d most host (refused u at) s)
      (rw next.0 (next_small most s.backoff)) hs
    ∙ rw next.0 (capped_next (length attempts) most s.backoff h)
run_liveness_backoff d most host (opened at lags end ∷ attempts) s h (never, _) = absurd never

-- Every delay of a run is at most the limit, if the first one is, and the initial one.
run_liveness_slept :
    (d : Driver) (most : ℕ) (host : Text) (attempts : List Attempt) (s : Live)
    → backoff_initial ≤ most
    → s.backoff ≤ most
    → All (λ b. b ≤ most) s.slept
    → All (λ b. b ≤ most) (run_liveness d most host attempts s).slept
unfolding run_liveness
run_liveness_slept d most host [] s i h hs = hs
run_liveness_slept d most host (a ∷ attempts) s i h hs =
    let next = turn_backoff d most host a s in
    run_liveness_slept d most host attempts (turn d most host a s) i
      (rw next.0 (next_small most (subscribed d host a s).backoff)) (rw next.1 (starts_small a, hs))
  where
    starts_small : (x : Attempt) → (subscribed d host x s).backoff ≤ most
    starts_small (refused u at) = h
    starts_small (opened at lags end) = i
