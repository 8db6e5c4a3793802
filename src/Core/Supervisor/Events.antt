-- ===== src/Core/Supervisor/Events.antt =====
-- Emits and deaths of running plugins, in any order, for core/supervisor.go.
use mathlib.Core.Path.{subst}
use supergraph.Common.{
  Fault, ℕ, ◌≡◌, refl, ap, sym, ◌∙◌, String, string_eq, true, false, Option, none, some, arith,
  Bool-cases, inl, inr, beq_refl, ◌≢◌,
}
use supergraph.Common.Dict.{lookup, insert, lookup-insert}
use supergraph.Common.Order.{find_by}
use supergraph.Core.Envelope.{Envelope}
use supergraph.Core.Health.{HealthStatus, stale, entry, record_event, snapshot}
use supergraph.Core.Health.Freshness.{entry-record_event, entry-mark_stale, forced-snapshot}
use supergraph.Core.Bus.{Bus, publish}
use supergraph.Core.Store.{Store}
use supergraph.Core.Store.Ring.{aborts, append_committed, append_aborted, appended}
use supergraph.Core.Supervisor.{Outside, Supervisor, emit, emit_to, publish_event, stop_dead}

pub some_inj : {A : Type 0} {x y : A} → some x ≡ some y → x ≡ y
some_inj h = cc

module _ (o : Outside) where
  -- A committed emit on a bus that does not panic.
  pub emitted :
      (fault : Fault) (name : String) (store : Store o.layout.Stamp) (e : Envelope)
      (sv : Supervisor o) (b : Bus)
      → aborts fault ≡ false
      → publish e sv.bus ≡ some b
      → emit o fault name store e sv
        ≡ some (record sv {
          health = record_event sv.health name e.ts;
          bus = b;
          stores = insert name (appended o.layout store e) sv.stores;
        })
  unfolding emit
  emitted fault name store e sv b q p =
      ap (emit_to o sv name e) (append_committed o.layout fault store e q)
      ∙ ap (publish_event o sv name e (appended o.layout store e)) p

  pub refused :
      (fault : Fault) (name : String) (store : Store o.layout.Stamp) (e : Envelope)
      (sv : Supervisor o)
      → aborts fault ≡ true
      → emit o fault name store e sv ≡ some (record sv { stores = insert name store sv.stores })
  unfolding emit
  refused fault name store e sv q =
      let (x, p) = append_aborted o.layout fault store e q in rw p refl

  -- An emit whose append fails leaves the health, the bus, the plugins and every store as they were.
  pub emit_refused :
      (fault : Fault) (name : String) (store : Store o.layout.Stamp) (e : Envelope)
      (sv : Supervisor o)
      → aborts fault ≡ true
      → lookup name sv.stores ≡ some store
      → (sv' : Supervisor o) × (emit o fault name store e sv ≡ some sv')
        × (sv'.health ≡ sv.health)
        × (sv'.bus ≡ sv.bus)
        × (sv'.plugins ≡ sv.plugins)
        × ((n : String) → lookup n sv'.stores ≡ lookup n sv.stores)
  emit_refused fault name store e sv q at = (
    _,
    refused fault name store e sv q,
    refl,
    refl,
    refl,
    λ n. ground (arith, lookup-insert name n store sv.stores, string_eq.same_iff name n, at),
  )

  -- What running plugins do, in any order: emit through their closure, or stop in Start.
  pub data Step : Supervisor o → Supervisor o → Type 0 where
    emits :
        (fault : Fault) (name : String) (store : Store o.layout.Stamp) (e : Envelope)
        (sv sv' : Supervisor o)
        → emit o fault name store e sv ≡ some sv'
        → Step sv sv'
    dies : (p : o.Plugin) (sv : Supervisor o) → Step sv (stop_dead o p sv)

  pub data Steps (sv : Supervisor o) : Supervisor o → Type 0 where
    here : Steps sv sv
    and_then : {sv' sv'' : Supervisor o} → Steps sv sv' → Step sv' sv'' → Steps sv sv''

  abbrev Down : Supervisor o → String → Type 0
  Down sv n = (entry sv.health n).forced_stale ≡ true

  publish_event-Down :
      (n name : String) (e : Envelope) (store : Store o.layout.Stamp) (b : Option Bus)
      (sv sv' : Supervisor o)
      → publish_event o sv name e store b ≡ some sv'
      → Down sv n
      → Down sv' n
  publish_event-Down n name e store none sv sv' h d = cc
  publish_event-Down n name e store (some b) sv sv' h d =
      subst (λ s. Down s n) (some_inj h)
        (ground (arith, entry-record_event sv.health name n e.ts, string_eq.same_iff name n))

  emit-Down :
      (fault : Fault) (n name : String) (e : Envelope) (store : Store o.layout.Stamp)
      (sv sv' : Supervisor o)
      → emit o fault name store e sv ≡ some sv'
      → Down sv n
      → Down sv' n
  unfolding emit
  emit-Down fault n name e store sv sv' h d = elim (Bool-cases (aborts fault)) [
    | inl p ↦ subst (λ s. Down s n) (some_inj (sym (refused fault name store e sv p) ∙ h)) d
    | inr p ↦
        publish_event-Down n name e (appended o.layout store e) (publish e sv.bus) sv sv'
          (sym (ap (emit_to o sv name e) (append_committed o.layout fault store e p)) ∙ h) d
  ]

  Step-Down : (n : String) {sv sv' : Supervisor o} → Step sv sv' → Down sv n → Down sv' n
  Step-Down n (emits fault name store e sv sv' h) d = emit-Down fault n name e store sv sv' h d
  Step-Down n (dies p sv) d =
      unfold stop_dead in
      ground (arith, entry-mark_stale sv.health (o.name p) n, string_eq.same_iff (o.name p) n)

  Steps-Down : (n : String) {sv sv' : Supervisor o} → Steps sv sv' → Down sv n → Down sv' n
  Steps-Down n here d = d
  Steps-Down n (and_then r s) d = Step-Down n s (Steps-Down n r d)

  -- A plugin whose Start panicked or failed is in the snapshot with the state stale, at any time,
  -- after any further emits, its own late ones included, and any further deaths.
  pub dead_stays_stale :
      (p : o.Plugin) (sv sv' : Supervisor o) (call : ℕ → String) (now : ℕ)
      → Steps (stop_dead o p sv) sv'
      → (hs : HealthStatus) × (find_by
            (λ (s : HealthStatus). s.plugin)
            (o.name p)
            (snapshot call now sv'.health)
          ≡ some hs)
        × (hs.state ≡ stale)
  dead_stays_stale p sv sv' call now r = forced-snapshot call now sv'.health (o.name p) (
      Steps-Down (o.name p) r (
        unfold stop_dead in
        ground (arith, entry-mark_stale sv.health (o.name p) (o.name p), beq_refl (o.name p))))

  -- The death of one plugin changes no other plugin's health, and no store.
  pub death_is_isolated :
      (p : o.Plugin) (sv : Supervisor o) (n : String)
      → o.name p ≢ n
      → (entry (stop_dead o p sv).health n ≡ entry sv.health n)
        × ((stop_dead o p sv).stores ≡ sv.stores)
  unfolding stop_dead
  death_is_isolated p sv n h = (
    ground (arith, entry-mark_stale sv.health (o.name p) n, string_eq.same_iff (o.name p) n),
    refl,
  )
