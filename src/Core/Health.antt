-- ===== src/Core/Health.antt =====
-- core/health.go, and HealthState and HealthStatus of core/plugin.go: the freshness of every plugin.
-- A time is a number of nanoseconds, a lag is a signed number of them. A cursor function is a
-- handle, and `call` runs it.
pub mod Freshness
pub mod Marks
use supergraph.Common.{
  string_eq, ℕ, String, ◌≡◌, Bool, true, false, Option, none, some, List, [], map, or_else,
  if◌then◌else◌,
}
use supergraph.Common.Dict.{lookup, insert}
use supergraph.Common.Int.{ℤ, pos, sub_ℕ, ltb_ℤ}
use supergraph.Common.Order.{sort_by}

pub data HealthState : Type 0 where
  starting ok stale : HealthState

pub record HealthStatus : Type 0 where
  pub plugin : String
  pub last_event_at : Option ℕ
  pub cursor : String
  pub lag : ℤ
  pub state : HealthState

pub record PluginHealth : Type 0 where
  pub last_event_at : Option ℕ
  pub cursor_fn : Option ℕ
  pub forced_stale : Bool

pub record HealthAggregator : Type 0 where
  pub threshold : ℤ
  pub plugins : List (String × PluginHealth)

abbrev pub zero_health : PluginHealth
zero_health = record { last_event_at = none; cursor_fn = none; forced_stale = false }

unfoldable pub new_health_aggregator : ℤ → HealthAggregator
new_health_aggregator threshold = record { threshold = threshold; plugins = [] }

-- The record of a name; a name that is not there has the zero record, which the caller writes.
unfoldable pub entry : HealthAggregator → String → PluginHealth
entry h name = or_else (lookup name h.plugins) zero_health

abbrev put : HealthAggregator → String → PluginHealth → HealthAggregator
put h name p = record h { plugins = insert name p h.plugins }

unfoldable pub mark_starting : HealthAggregator → String → HealthAggregator
unfolding entry
mark_starting h name = put h name (record (entry h name) { forced_stale = false })

unfoldable pub record_event : HealthAggregator → String → ℕ → HealthAggregator
unfolding entry
record_event h name at = put h name (record (entry h name) { last_event_at = some at })

unfoldable pub mark_stale : HealthAggregator → String → HealthAggregator
unfolding entry
mark_stale h name = put h name (record (entry h name) { forced_stale = true })

unfoldable pub set_cursor_func : HealthAggregator → String → ℕ → HealthAggregator
unfolding entry
set_cursor_func h name fn = put h name (record (entry h name) { cursor_fn = some fn })

abbrev call_cursor : (ℕ → String) → Option ℕ → String
call_cursor call none = ""
call_cursor call (some fn) = call fn

abbrev build_status : String → PluginHealth → String → ℤ → HealthState → HealthStatus
build_status name p cursor lag state = record {
  plugin = name;
  last_event_at = p.last_event_at;
  cursor = cursor;
  lag = lag;
  state = state;
}

-- The cases of the `switch` below `forcedStale`.
abbrev by_lag : (ℤ → HealthState → HealthStatus) → ℕ → ℤ → Option ℕ → HealthStatus
by_lag hs now threshold none = hs (pos 0) starting
by_lag hs now threshold (some t) =
    let lag = sub_ℕ now t in hs lag (if ltb_ℤ threshold lag then stale else ok)

-- One turn of the loop in `Snapshot`.
unfoldable pub status_of : (ℕ → String) → ℕ → ℤ → String × PluginHealth → HealthStatus
status_of call now threshold (name, p) =
    let hs = λ (l : ℤ) (s : HealthState). build_status name p (call_cursor call p.cursor_fn) l s in
    if p.forced_stale then hs (pos 0) stale else by_lag hs now threshold p.last_event_at

unfoldable pub snapshot : (ℕ → String) → ℕ → HealthAggregator → List HealthStatus
unfolding status_of
snapshot call now h = sort_by (λ hs. hs.plugin) (map (status_of call now h.threshold) h.plugins)
