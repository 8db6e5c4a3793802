-- ===== src/Examples/Core.antt =====
-- Examples for core/.
use supergraph.Common.{
  ℕ, ◌≡◌, refl, String, string_eq, nat_eq, true, false, none, some, List, [], ◌∷◌, ◌++◌, ◌==◌,
  contains, if◌then◌else◌, ◌↔◌, ◌⊎◌, Fault, take, ◌∙◌,
}
use supergraph.Common.Dict.{lookup, insert}
use supergraph.Common.Int.{pos}
use supergraph.Common.Order.{find_by}
use supergraph.Core.Envelope.{Envelope}
use supergraph.Core.Health.{HealthStatus, starting, stale, status_of, snapshot, record_event}
use supergraph.Core.Health.Freshness
use supergraph.Core.Health.Freshness.{
  Call, starting_of, event_of, stale_of, cursor_of, health_of, is_known, is_down, last_event,
  IsLate,
}
use supergraph.Core.Bus.{sub_buffer, Bus, Channel, new_bus, subscribe, publish}
use supergraph.Core.Bus.Backlog
use supergraph.Core.Bus.Backlog.{publish_all}
use supergraph.Core.Bus.Offers.{deliver, channel_at}
use supergraph.Core.Bus.Safety
use supergraph.Core.Bus.Safety.{Reach, fresh, next, subscribes}
use supergraph.Core.Store.{TimeLayout, ok as fetched, new_store, events}
use supergraph.Core.Store.Ring
use supergraph.Core.Store.Ring.{run, committed, aborts, appended}
use supergraph.Core.Supervisor.{Outside, Supervisor, new_supervisor, start_all, emit, stop_dead}
use supergraph.Core.Supervisor.Startup
use supergraph.Core.Supervisor.Events
use supergraph.Core.Supervisor.Events.{here, and_then, emits, dies}
use supergraph.Core.Supervisor.Emits
use supergraph.Core.Supervisor.Emits.{Emission}

abbrev no_cursor : ℕ → String
no_cursor n = ""

-- A plugin that starts, emits, crashes, and emits once more.
abbrev crashed : List Call
crashed = event_of "git" 9 ∷ stale_of "git" ∷ event_of "git" 5 ∷ starting_of "git" ∷ []

abbrev crashed_row : HealthStatus
crashed_row = record {
  plugin = "git";
  last_event_at = some 9;
  cursor = "";
  lag = pos 0;
  state = stale;
}

abbrev name_of_status : HealthStatus → String
name_of_status hs = hs.plugin

crashed_found :
    find_by name_of_status "git" (snapshot no_cursor 10 (Freshness.run (pos 100) crashed))
    ≡ some crashed_row
crashed_found =
    Freshness.find_by-snapshot no_cursor 10 (pos 100) "git" crashed ∙ (unfold status_of in refl)

state-snapshot_example :
    ((crashed_row.state ≡ stale)
      ↔ ((is_down "git" crashed ≡ true) ⊎ IsLate 10 (pos 100) (last_event "git" crashed)))
    × ((crashed_row.state ≡ starting)
        ↔ ((is_down "git" crashed ≡ false) × (last_event "git" crashed ≡ none)))
    × (crashed_row.last_event_at ≡ last_event "git" crashed)
state-snapshot_example =
    Freshness.state-snapshot no_cursor 10 (pos 100) "git" crashed crashed_row crashed_found

abbrev event : Envelope
event = record { ts = 5; source = "git"; type = "t"; v = 1; key = "k"; payload = [] }

abbrev one_subscriber : Bus
one_subscriber = (subscribe new_bus).0

one_subscriber-Reach : Reach one_subscriber
one_subscriber-Reach = next fresh (subscribes new_bus)

publish_fan_out_example :
    (cs : List (ℕ × Channel)) × (publish event one_subscriber
      ≡ some (record one_subscriber { channels = cs }))
    × ((j : ℕ)
        → lookup j cs ≡ (
            if contains one_subscriber.subs j
            then some (deliver event (channel_at j one_subscriber.channels))
            else lookup j one_subscriber.channels))
publish_fan_out_example = Safety.publish_fan_out event one_subscriber-Reach

publish_all_backlog_example :
    (b' : Bus) × (publish_all (event ∷ event ∷ []) one_subscriber ≡ some b')
    × ((channel_at 0 b'.channels).buffer
        ≡ take sub_buffer ((channel_at 0 one_subscriber.channels).buffer ++ event ∷ event ∷ []))
unfolding contains subscribe new_bus
publish_all_backlog_example =
    Backlog.publish_all_backlog (event ∷ event ∷ []) {b = one_subscriber} 0 one_subscriber-Reach
      refl

-- A time that is kept as it is.
abbrev plain : TimeLayout
plain = record { Stamp = ℕ; format = λ t. t; parse = λ t. some t; parse-format = λ t. refl }

abbrev appends : List (Fault × Envelope)
appends = (none, event) ∷ (some 2, event) ∷ (none, record event { ts = 4 }) ∷ []

events-run_example :
    events plain none (run plain 1 appends) 5 ≡ fetched (take 5 (take 1 (committed appends)))
events-run_example = Ring.events-run plain 1 5 appends

-- Two plugins, of which one cannot be built.
abbrev outside : Outside
outside = record {
  layout = plain;
  Plugin = String;
  name = λ p. p;
  cursor = λ p. none;
  build = λ n. if n == "bad" then none else some n;
  open_store = λ n. some (new_store 10);
  migrate = λ p s. some s;
}

abbrev registered : List (String × ℕ)
registered = ("good", 0) ∷ ("bad", 1) ∷ []

start_all-Settled_example :
    Startup.Settled outside "bad" (start_all outside registered (new_supervisor outside (pos 100)))
start_all-Settled_example =
    Startup.start_all-Settled outside registered (pos 100) "bad" (unfold contains in refl)

abbrev idle : Supervisor outside
idle = new_supervisor outside (pos 100)

abbrev holding : Supervisor outside
holding = record idle { stores = ("good", new_store 10) ∷ [] }

-- Two plugins whose emits are interleaved; one append fails.
abbrev both : Supervisor outside
both = record idle { stores = ("good", new_store 10) ∷ ("other", new_store 5) ∷ [] }

abbrev emission : Fault → String → Emission
emission fault name = record { fault = fault; name = name; envelope = event }

abbrev mixed : List Emission
mixed = emission none "good" ∷ emission (some 2) "good" ∷ emission none "other" ∷ []

-- After its crash the plugin emits once more, and another one crashes.
abbrev down : Supervisor outside
down = stop_dead outside "good" holding

abbrev late : Supervisor outside
late = record down {
  health = record_event down.health "good" event.ts;
  bus = down.bus;
  stores = insert "good" (appended plain (new_store 10) event) down.stores;
}

down-publish : publish event down.bus ≡ some down.bus
unfolding stop_dead new_supervisor publish new_bus supergraph.Core.Bus.publish_to
down-publish = refl

late-emit : emit outside none "good" (new_store 10) event down ≡ some late
late-emit = Events.emitted outside none "good" (new_store 10) event down down.bus refl down-publish

dead_stays_stale_example :
    (hs : HealthStatus) × (find_by
        (λ (s : HealthStatus). s.plugin)
        "good"
        (snapshot no_cursor 10 (stop_dead outside "other" late).health)
      ≡ some hs)
    × (hs.state ≡ stale)
dead_stays_stale_example =
    Events.dead_stays_stale outside "good" holding (stop_dead outside "other" late) no_cursor 10 (
      and_then (and_then here (emits none "good" (new_store 10) event down late late-emit))
        (dies "other" late))
