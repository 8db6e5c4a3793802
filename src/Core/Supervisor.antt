-- ===== src/Core/Supervisor.antt =====
-- core/supervisor.go. A plugin is a value that is not looked into: its name, its cursor function,
-- and what its factory, the opening of its store and its Migrate return are the parameters of the
-- section. What its Start does is a sequence of the events below.
pub mod Startup
pub mod Events
pub mod Emits
use supergraph.Common.{
  Fault, fails_at, ℕ, String, string_eq, Bool, true, false, Option, none, some, List, [], ◌∷◌, ◌++◌,
  if◌then◌else◌,
}
use supergraph.Common.Int.{ℤ}
use supergraph.Common.Dict.{lookup, insert}
use supergraph.Core.Envelope.{Envelope}
use supergraph.Core.Health.{
  HealthAggregator, new_health_aggregator, mark_starting, mark_stale, record_event, set_cursor_func,
}
use supergraph.Core.Bus.{Bus, new_bus, publish}
use supergraph.Core.Store.{Store, TimeLayout, Result, ok, err, append_event}
use supergraph.Core.Registry.{sorted_factory_names}

pub record Outside : Type 1 where
  pub layout : TimeLayout
  pub Plugin : Type 0
  -- `Plugin.Name()`
  pub name : Plugin → String
  -- `Cursor` of a plugin that is a CursorReporter
  pub cursor : Plugin → Option ℕ
  -- a factory with the plugin's configuration, `OpenStore` of the plugin's file, and `Migrate`
  pub build : String → Option Plugin
  pub open_store : String → Option (Store layout.Stamp)
  pub migrate : Plugin → Store layout.Stamp → Option (Store layout.Stamp)

pub record Supervisor (o : Outside) : Type 0 where
  pub health : HealthAggregator
  pub bus : Bus
  pub stores : List (String × Store o.layout.Stamp)
  pub plugins : List (String × o.Plugin)

module _ (o : Outside) where
  abbrev pub with_cursor : HealthAggregator → String → Option ℕ → HealthAggregator
  with_cursor h name none = h
  with_cursor h name (some fn) = set_cursor_func h name fn

  abbrev pub failed : Supervisor o → String → Supervisor o
  failed sv name = record sv { health = mark_stale sv.health name }

  abbrev started : Supervisor o → String → o.Plugin → Store o.layout.Stamp → Supervisor o
  started sv name plugin store = record sv {
    stores = insert name store sv.stores;
    plugins = insert name plugin sv.plugins;
  }

  abbrev after_migrate :
      Supervisor o → String → o.Plugin → Option (Store o.layout.Stamp) → Supervisor o
  after_migrate sv name plugin none = failed sv name
  after_migrate sv name plugin (some store) = started sv name plugin store

  abbrev after_open :
      Supervisor o → String → o.Plugin → Option (Store o.layout.Stamp) → Supervisor o
  after_open sv name plugin none = failed sv name
  after_open sv name plugin (some store) = after_migrate sv name plugin (o.migrate plugin store)

  abbrev after_build : Supervisor o → String → Option o.Plugin → Supervisor o
  after_build sv name none = failed sv name
  after_build sv name (some plugin) =
      after_open (record sv { health = with_cursor sv.health name (o.cursor plugin) }) name plugin
        (o.open_store name)

  -- One turn of the loop in `startAll`.
  unfoldable pub start_one : Supervisor o → String → Supervisor o
  start_one sv name =
      after_build (record sv { health = mark_starting sv.health name }) name (o.build name)

  unfoldable pub start_names : List String → Supervisor o → Supervisor o
  unfolding start_one
  start_names [] sv = sv
  start_names (n ∷ ns) sv = start_names ns (start_one sv n)

  unfoldable pub start_all : {F : Type 0} → List (String × F) → Supervisor o → Supervisor o
  unfolding start_names
  start_all factories sv = start_names (sorted_factory_names factories) sv

  unfoldable pub new_supervisor : ℤ → Supervisor o
  new_supervisor threshold = record {
    health = new_health_aggregator threshold;
    bus = new_bus;
    stores = [];
    plugins = [];
  }

  abbrev publish_event :
      Supervisor o → String → Envelope → Store o.layout.Stamp → Option Bus → Option (Supervisor o)
  publish_event sv name e store none = none
  publish_event sv name e store (some b) = some (record sv {
    health = record_event sv.health name e.ts;
    bus = b;
    stores = insert name store sv.stores;
  })

  abbrev emit_to :
      Supervisor o
      → String
      → Envelope
      → Store o.layout.Stamp × Result (Unit {0})
      → Option (Supervisor o)
  emit_to sv name e (store, err x) = some (record sv { stores = insert name store sv.stores })
  emit_to sv name e (store, ok u) = publish_event sv name e store (publish e sv.bus)

  -- The closure that `emitFor` gives the plugin of a name. `none` is a panic in `publish`.
  unfoldable pub emit :
      Fault → String → Store o.layout.Stamp → Envelope → Supervisor o → Option (Supervisor o)
  emit fault name store e sv = emit_to sv name e (append_event o.layout fault store e)

  -- `stopDead`, which `runPlugin` calls where Start panics or returns an error.
  unfoldable pub stop_dead : o.Plugin → Supervisor o → Supervisor o
  stop_dead p sv = record sv { health = mark_stale sv.health (o.name p) }
