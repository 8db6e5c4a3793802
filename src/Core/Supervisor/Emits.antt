-- ===== src/Core/Supervisor/Emits.antt =====
-- The emits of several plugins in any interleaving, for core/supervisor.go.
use supergraph.Common.{
  Fault, ℕ, ◌≡◌, refl, ap, sym, ◌∙◌, String, string_eq, true, Option, none, some, List, [], ◌∷◌,
  arith, if◌then◌else◌, Bool-cases, inl, inr, ◌==◌, is_some, ◌&&◌, not,
}
use supergraph.Common.Dict.{lookup, insert, lookup-insert}
use supergraph.Core.Envelope.{Envelope}
use supergraph.Core.Health.{entry, record_event}
use supergraph.Core.Health.Freshness.{entry-record_event}
use supergraph.Core.Bus.{Bus}
use supergraph.Core.Bus.Safety.{Reach, next, publishes, publish_fan_out}
use supergraph.Core.Bus.Backlog.{publish_all}
use supergraph.Core.Store.{Store, append_event}
use supergraph.Core.Store.Ring.{aborts, append_committed, append_aborted, appended}
use supergraph.Core.Supervisor.{Outside, Supervisor, emit}
use supergraph.Core.Supervisor.Events.{emitted, refused}

-- An envelope that the plugin of a name emits, and where the driver fails.
pub record Emission : Type 0 where
  pub fault : Fault
  pub name : String
  pub envelope : Envelope

-- The appends that the store of a plugin sees, the oldest first.
abbrev pub own : String → List Emission → List (Fault × Envelope)
own n [] = []
own n (m ∷ ms) = let rest = own n ms in if m.name == n then (m.fault, m.envelope) ∷ rest else rest

-- The time of the last append that is committed, or what was there.
abbrev pub last_time : Option ℕ → List (Fault × Envelope) → Option ℕ
last_time t [] = t
last_time t ((fault, e) ∷ later) = last_time (if aborts fault then t else some e.ts) later

-- The envelopes whose append is committed, of every plugin.
abbrev pub sent : List Emission → List Envelope
sent [] = []
sent (m ∷ ms) = let rest = sent ms in if aborts m.fault then rest else m.envelope ∷ rest

module _ (o : Outside) where
  abbrev pub append_all : Store o.layout.Stamp → List (Fault × Envelope) → Store o.layout.Stamp
  append_all s [] = s
  append_all s ((fault, e) ∷ later) = append_all (append_event o.layout fault s e).0 later

  abbrev emit_from : Emission → Supervisor o → Option (Store o.layout.Stamp) → Option (Supervisor o)
  emit_from m sv none = some sv
  emit_from m sv (some store) = emit o m.fault m.name store m.envelope sv

  abbrev chained :
      Option (Supervisor o) → (Supervisor o → Option (Supervisor o)) → Option (Supervisor o)
  chained none later = none
  chained (some sv) later = later sv

  -- The emits in turn, the oldest first, each through the store of its plugin as it is then.
  unfoldable pub emit_all : List Emission → Supervisor o → Option (Supervisor o)
  emit_all [] sv = some sv
  emit_all (m ∷ ms) sv = chained (emit_from m sv (lookup m.name sv.stores)) (emit_all ms)

  abbrev pub IsStarted : Supervisor o → Emission → Type 0
  IsStarted sv m = is_some (lookup m.name sv.stores) ≡ true

  -- One emit, seen at every plugin.
  record Turned (m : Emission) (store : Store o.layout.Stamp) (sv sv' : Supervisor o) : Type 0 where
    went : emit o m.fault m.name store m.envelope sv ≡ some sv'
    reach : Reach sv'.bus
    told :
        (es : List Envelope)
        → publish_all (if aborts m.fault then es else m.envelope ∷ es) sv.bus
          ≡ publish_all es sv'.bus
    kept : sv'.plugins ≡ sv.plugins
    at_store :
        (n : String)
        → lookup n sv'.stores ≡ (
            if m.name == n
            then some (append_event o.layout m.fault store m.envelope).0
            else lookup n sv.stores)
    at_entry :
        (n : String)
        → entry sv'.health n ≡ (
            if m.name == n && not (aborts m.fault)
            then record (entry sv.health n) { last_event_at = some m.envelope.ts }
            else entry sv.health n)

  turn :
      (m : Emission) (store : Store o.layout.Stamp) (sv : Supervisor o)
      → lookup m.name sv.stores ≡ some store
      → Reach sv.bus
      → (sv' : Supervisor o) × Turned m store sv sv'
  turn m store sv at r = elim (Bool-cases (aborts m.fault)) [
    | inl q ↦ (
      record sv { stores = insert m.name store sv.stores },
      record {
        went = refused o m.fault m.name store m.envelope sv q;
        reach = r;
        told = λ es. rw q refl;
        kept = refl;
        at_store = λ n.
            lookup-insert m.name n store sv.stores
            ∙ ap (λ s. if m.name == n then some s else lookup n sv.stores)
                (ap (λ t. t.0) (sym (append_aborted o.layout m.fault store m.envelope q).1));
        at_entry = λ n. ground (arith, q);
      },
    )
    | inr q ↦
        let (cs, sent_to, _) = publish_fan_out m.envelope r in
        let b : Bus = record sv.bus { channels = cs } in
        (
          record sv {
            health = record_event sv.health m.name m.envelope.ts;
            bus = b;
            stores = insert m.name (appended o.layout store m.envelope) sv.stores;
          },
          record {
            went = emitted o m.fault m.name store m.envelope sv b q sent_to;
            reach = next r (publishes m.envelope sv.bus b sent_to);
            told = λ es. rw (q, sent_to, publish_all) refl;
            kept = refl;
            at_store = λ n.
                lookup-insert m.name n (appended o.layout store m.envelope) sv.stores
                ∙ ap (λ s. if m.name == n then some s else lookup n sv.stores)
                    (ap (λ t. t.0) (sym (append_committed o.layout m.fault store m.envelope q)));
            at_entry = λ n.
                entry-record_event sv.health m.name n m.envelope.ts
                ∙ ground (arith, q, string_eq.same_iff m.name n);
          },
        )
  ]
