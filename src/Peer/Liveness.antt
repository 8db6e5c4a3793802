-- ===== src/Peer/Liveness.antt =====
-- plugins/peer/liveness.go: the loop that keeps a subscription to one peer. What a subscription sees is
-- a parameter, and one turn of the loop a function of it. Times are nanoseconds.
pub mod Backoff
pub mod Transitions
use supergraph.Common.{ℕ, ◌+◌, ◌≡◌, Bool, true, false, ◌&&◌, List, [], ◌∷◌, if◌then◌else◌, ltb}
use supergraph.Common.Bytes.{Text}
use supergraph.Peer.Store.{Tables, mark_seen, mark_stale}

-- A subscription to a peer: refused, with a 401 or for another reason, or acknowledged, with the
-- times of the frames that came then and the lag that each tells, until it broke. A server of the
-- protocol sends no frame of data before it acknowledges.
pub data Attempt : Type 0 where
  refused : Bool → ℕ → Attempt
  opened : ℕ → List (ℕ × ℕ) → ℕ → Attempt

-- The times at which the statements of the store fail.
pub record Driver : Type 0 where
  pub seen_fails : ℕ → Bool
  pub stale_fails : ℕ → Bool

-- `emitted` holds the times of the events peer.stale and `slept` the delays, the newest first.
pub record Live : Type 0 where
  pub tables : Tables
  pub ever_up : Bool
  pub backoff : ℕ
  pub emitted : List ℕ
  pub slept : List ℕ

abbrev pub backoff_initial : ℕ
backoff_initial = 500000000

abbrev pub seen : Driver → Text → ℕ → ℕ → Tables → Tables
seen d host at lag t = if d.seen_fails at then t else mark_seen host at lag t

unfoldable pub lags_seen : Driver → Text → List (ℕ × ℕ) → Tables → Tables
lags_seen d host [] t = t
lags_seen d host ((at, lag) ∷ lags) t = lags_seen d host lags (seen d host at lag t)

abbrev pub subscribed : Driver → Text → Attempt → Live → Live
subscribed d host (refused unauthorized failed_at) s = s
subscribed d host (opened at lags failed_at) s = record s {
  tables = lags_seen d host lags (seen d host at 0 s.tables);
  ever_up = true;
  backoff = backoff_initial;
}

abbrev pub failed_at : Attempt → ℕ
failed_at (refused unauthorized at) = at
failed_at (opened at lags end) = end

abbrev pub is_unauthorized : Attempt → Bool
is_unauthorized (refused unauthorized at) = unauthorized
is_unauthorized (opened at lags end) = false

abbrev pub staled : Driver → Text → ℕ → Tables → Tables × Bool
staled d host at t = if d.stale_fails at then (t, false) else mark_stale host at t

abbrev pub next_backoff : ℕ → ℕ → ℕ
next_backoff backoff_max b = if ltb backoff_max (b + b) then backoff_max else b + b

-- What follows the end of a subscription.
abbrev pub broken : ℕ → Attempt → Live → Tables × Bool → Live
broken backoff_max a s (t, transition) = record {
  tables = t;
  ever_up = if is_unauthorized a then false else s.ever_up;
  backoff = next_backoff backoff_max s.backoff;
  emitted = if transition && s.ever_up then failed_at a ∷ s.emitted else s.emitted;
  slept = s.backoff ∷ s.slept;
}

unfoldable pub turn : Driver → ℕ → Text → Attempt → Live → Live
turn d backoff_max host a s =
    let up = subscribed d host a s in
    broken backoff_max a up (staled d host (failed_at a) up.tables)

unfoldable pub run_liveness : Driver → ℕ → Text → List Attempt → Live → Live
run_liveness d backoff_max host [] s = s
run_liveness d backoff_max host (a ∷ attempts) s =
    run_liveness d backoff_max host attempts (turn d backoff_max host a s)
