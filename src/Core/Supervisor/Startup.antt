-- ===== src/Core/Supervisor/Startup.antt =====
-- What `startAll` leaves for every registered plugin, for core/supervisor.go.
use mathlib.Core.Option
use mathlib.Core.Path.{subst}
use supergraph.Common.{
  ◌||◌, ℕ, ◌≡◌, refl, String, string_eq, Bool, true, Option, none, some, List, [], ◌∷◌, arith,
  is_none, if◌then◌else◌, Bool-cases, inl, inr, ◌==◌, contains, beq_refl, sym, ◌∙◌,
}
use supergraph.Common.Int.{ℤ}
use supergraph.Common.Dict.{lookup, lookup-insert}
use supergraph.Common.Order.{contains-sort_by}
use supergraph.Core.Health.{HealthAggregator, entry, mark_starting}
use supergraph.Core.Health.Freshness.{entry-mark_starting, entry-mark_stale, entry-set_cursor_func}
use supergraph.Core.Store.{Store}
use supergraph.Core.Registry.{keys, sorted_factory_names}
use supergraph.Core.Supervisor.{
  Outside, Supervisor, with_cursor, after_build, after_open, after_migrate, failed, start_one,
  start_names, start_all, new_supervisor,
}

module _ (o : Outside) where
  abbrev pub ready_store :
      o.Plugin → Option (Store o.layout.Stamp) → Option (o.Plugin × Store o.layout.Stamp)
  ready_store p none = none
  ready_store p (some s) = Option.map (λ s'. (p, s')) (o.migrate p s)

  abbrev pub ready_plugin : String → Option o.Plugin → Option (o.Plugin × Store o.layout.Stamp)
  ready_plugin n none = none
  ready_plugin n (some p) = ready_store p (o.open_store n)

  -- The plugin of a name and its migrated store, if its build, its store and its Migrate succeed.
  abbrev pub ready : String → Option (o.Plugin × Store o.layout.Stamp)
  ready n = ready_plugin n (o.build n)

  abbrev forced : Supervisor o → String → Bool
  forced sv n = (entry sv.health n).forced_stale

  abbrev pub one_of :
      {A : Type 0}
      → Option (o.Plugin × Store o.layout.Stamp)
      → (o.Plugin × Store o.layout.Stamp → A)
      → Option A
      → Option A
  one_of none f old = old
  one_of (some p) f old = some (f p)

  map-one_of :
      {A : Type 0} (r : Option (o.Plugin × Store o.layout.Stamp))
      (f : o.Plugin × Store o.layout.Stamp → A)
      → one_of r f none ≡ Option.map f r
  map-one_of none f = refl
  map-one_of (some p) f = refl

  one_of_settled :
      {A : Type 0} (r : Option (o.Plugin × Store o.layout.Stamp))
      (f : o.Plugin × Store o.layout.Stamp → A)
      → one_of r f (Option.map f r) ≡ Option.map f r
  one_of_settled none f = refl
  one_of_settled (some p) f = refl

  -- What `new` shows of `n` after `k` came out as `r` from `old`.
  record Outcome (k n : String) (r : Option (o.Plugin × Store o.layout.Stamp))
      (old new : Supervisor o) : Type 0 where
    plugin_at :
        lookup n new.plugins
        ≡ (if k == n then one_of r (λ p. p.0) (lookup n old.plugins) else lookup n old.plugins)
    store_at :
        lookup n new.stores
        ≡ (if k == n then one_of r (λ p. p.1) (lookup n old.stores) else lookup n old.stores)
    forced_at : forced new n ≡ (if k == n then is_none r || forced old n else forced old n)

  failed-Outcome : (k n : String) (sv : Supervisor o) → Outcome k n none sv (failed o sv k)
  failed-Outcome k n sv = ground (arith, entry-mark_stale sv.health k n, string_eq.same_iff k n)

  after_migrate-Outcome :
      (k n : String) (sv : Supervisor o) (p : o.Plugin) (m : Option (Store o.layout.Stamp))
      → Outcome k n (Option.map (λ s. (p, s)) m) sv (after_migrate o sv k p m)
  after_migrate-Outcome k n sv p none = failed-Outcome k n sv
  after_migrate-Outcome k n sv p (some s) =
      ground (arith, lookup-insert k n s sv.stores, lookup-insert k n p sv.plugins)

  after_open-Outcome :
      (k n : String) (sv : Supervisor o) (p : o.Plugin) (s : Option (Store o.layout.Stamp))
      → Outcome k n (ready_store p s) sv (after_open o sv k p s)
  after_open-Outcome k n sv p none = failed-Outcome k n sv
  after_open-Outcome k n sv p (some s) = after_migrate-Outcome k n sv p (o.migrate p s)

  with_cursor_forced :
      (h : HealthAggregator) (k n : String) (c : Option ℕ)
      → (entry (with_cursor o h k c) n).forced_stale ≡ (entry h n).forced_stale
  with_cursor_forced h k n none = refl
  with_cursor_forced h k n (some fn) =
      ground (arith, entry-set_cursor_func h k n fn, string_eq.same_iff k n)

  after_build-Outcome :
      (k n : String) (sv : Supervisor o) (p : Option o.Plugin)
      → Outcome k n (ready_plugin k p) sv (after_build o sv k p)
  after_build-Outcome k n sv none = failed-Outcome k n sv
  after_build-Outcome k n sv (some p) =
      let sv' : Supervisor o = record sv { health = with_cursor o sv.health k (o.cursor p) } in
      let r = after_open-Outcome k n sv' p (o.open_store k) in
      record {
        plugin_at = r.plugin_at;
        store_at = r.store_at;
        forced_at = rw (← with_cursor_forced sv.health k n (o.cursor p)) r.forced_at;
      }

  -- One turn of the loop: the mark of an earlier run is cleared first.
  start_one_lem :
      (sv : Supervisor o) (k n : String)
      → (lookup n (start_one o sv k).plugins ≡ (
          if k == n
          then one_of (ready k) (λ p. p.0) (lookup n sv.plugins)
          else lookup n sv.plugins))
        × (lookup n (start_one o sv k).stores ≡ (
            if k == n
            then one_of (ready k) (λ p. p.1) (lookup n sv.stores)
            else lookup n sv.stores))
        × (forced (start_one o sv k) n ≡ (if k == n then is_none (ready k) else forced sv n))
  unfolding start_one
  start_one_lem sv k n =
      let sv' : Supervisor o = record sv { health = mark_starting sv.health k } in
      let r = after_build-Outcome k n sv' (o.build k) in
      (
        r.plugin_at,
        r.store_at,
        r.forced_at ∙ ground (arith, entry-mark_starting sv.health k n, string_eq.same_iff k n),
      )

  -- The plugin and its store are there exactly if they are ready, and the mark says if not.
  pub record Settled (n : String) (sv : Supervisor o) : Type 0 where
    pub plugin_at : lookup n sv.plugins ≡ Option.map (λ p. p.0) (ready n)
    pub store_at : lookup n sv.stores ≡ Option.map (λ p. p.1) (ready n)
    pub forced_at : (entry sv.health n).forced_stale ≡ is_none (ready n)

  settle :
      (sv : Supervisor o) (n : String)
      → lookup n sv.plugins ≡ none
      → lookup n sv.stores ≡ none
      → Settled n (start_one o sv n)
  settle sv n p s = ground (
    arith,
    start_one_lem sv n n,
    beq_refl n,
    map-one_of (ready n) (λ q. q.0),
    map-one_of (ready n) (λ q. q.1),
  )

  start_one-Settled :
      (sv : Supervisor o) (k n : String) → Settled n sv → Settled n (start_one o sv k)
  start_one-Settled sv k n h = ground (
    arith,
    start_one_lem sv k n,
    string_eq.same_iff k n,
    one_of_settled (ready n) (λ q. q.0),
    one_of_settled (ready n) (λ q. q.1),
  )

  start_names-Settled :
      (ns : List String) (sv : Supervisor o) (n : String)
      → Settled n sv
      → Settled n (start_names o ns sv)
  unfolding start_names
  start_names-Settled [] sv n h = h
  start_names-Settled (k ∷ ks) sv n h =
      start_names-Settled ks (start_one o sv k) n (start_one-Settled sv k n h)

  start_names_settles :
      (ns : List String) (sv : Supervisor o) (n : String)
      → lookup n sv.plugins ≡ none
      → lookup n sv.stores ≡ none
      → contains ns n ≡ true
      → Settled n (start_names o ns sv)
  unfolding start_names contains
  start_names_settles [] sv n p s m = cc
  start_names_settles (k ∷ ks) sv n p s m = elim (Bool-cases (k == n)) [
    | inl e ↦ start_names-Settled ks (start_one o sv k) n (
        subst (λ j. Settled n (start_one o sv j)) (sym ((string_eq.same_iff k n).0 e))
          (settle sv n p s))
    | inr e ↦
        start_names_settles ks (start_one o sv k) n (ground (arith, start_one_lem sv k n))
          (ground (arith, start_one_lem sv k n)) (ground arith)
  ]

  -- After startAll on a new supervisor, every registered plugin whose build, store and Migrate all
  -- succeed is among the running plugins with its migrated store and carries no stale mark; every
  -- other registered plugin is not among them, has no store, and is marked stale. One plugin's
  -- failure changes nothing for another.
  pub start_all-Settled :
      {F : Type 0} (factories : List (String × F)) (z : ℤ) (n : String)
      → contains (keys factories) n ≡ true
      → Settled n (start_all o factories (new_supervisor o z))
  unfolding start_all new_supervisor sorted_factory_names lookup
  start_all-Settled factories z n m =
      start_names_settles (sorted_factory_names factories) (new_supervisor o z) n refl refl
        (contains-sort_by n (keys factories) ∙ m)
