-- ===== src/Core/Store/Ring.antt =====
-- The events that a store shows after any appends, for core/store.go.
use mathlib.Core.Path.{subst}
use supergraph.Common.{
  Fault, fails_at, ℕ, zero, suc, ◌+◌, ◌<◌, ◌≡◌, refl, ap, Bool, true, false, List, [], ◌∷◌, ◌++◌,
  arith, nat_eq, if◌then◌else◌, Bool-cases, inl, inr, ◌||◌, take, take-cons-take, Option, none,
  some,
}
use supergraph.Core.Envelope.{Envelope}
use supergraph.Core.Store.{
  Error, begin_failed, insert_failed, prune_failed, commit_failed, EventRow, Store, TimeLayout,
  Result, ok, err, order_desc, prune_rows, row_of, cons_row, envelope_of, append_event, scan_events,
  events, new_store,
}
use supergraph.Core.Store.Order.{
  Below, IsDescending, Below-order_desc, order_desc-append, order_desc-prune_rows, Below-prune_rows,
  take-IsDescending,
}

-- The statement at which the driver fails is one of the append's four.
abbrev pub aborts : Fault → Bool
aborts fault = fails_at 0 fault || fails_at 1 fault || fails_at 2 fault || fails_at 3 fault

-- The envelopes of a history, newest first, whose append was committed.
abbrev pub committed : List (Fault × Envelope) → List Envelope
committed [] = []
committed ((fault, e) ∷ older) =
    let rest = committed older in if aborts fault then rest else e ∷ rest

ok_inj {ℓ} : {A : Type ℓ} {x y : A} → ok x ≡ ok y → x ≡ y
ok_inj h = cc

module _ (layout : TimeLayout) where
  open layout use {Stamp, parse-format}

  -- `stored` are the envelopes in the rows, newest first.
  record Holds (s : Store Stamp) (capacity : ℕ) (stored : List Envelope) : Type 0 where
    capped : s.ring_capacity ≡ capacity
    descending : IsDescending (order_desc s.events)
    below : Below (s.last_id + 1) s.events
    shown : scan_events layout (order_desc s.events) ≡ ok stored

  cons_row-take :
      (n : ℕ) (r : EventRow Stamp) (o : Option ℕ) (rest rest' : Result (List Envelope))
      (es : List Envelope)
      → ((out : List Envelope) → rest ≡ ok out → rest' ≡ ok (take n out))
      → cons_row layout r o rest ≡ ok es
      → cons_row layout r o rest' ≡ ok (take (suc n) es)
  cons_row-take n r none rest rest' es k h = cc
  cons_row-take n r (some t) (err x) rest' es k h = cc
  cons_row-take n r (some t) (ok out) rest' [] k h = cc
  cons_row-take n r (some t) (ok out) rest' (e ∷ es) k h =
      let same : envelope_of layout t r ∷ out ≡ e ∷ es = ok_inj h in
      rw (k out refl) (ap (λ l. ok (take (suc n) l)) same)

  scan_events-take :
      (n : ℕ) (rs : List (EventRow Stamp)) (es : List Envelope)
      → scan_events layout rs ≡ ok es
      → scan_events layout (take n rs) ≡ ok (take n es)
  unfolding scan_events
  scan_events-take zero rs es h = refl
  scan_events-take (suc n) [] es h = ground arith
  scan_events-take (suc n) (r ∷ rs) es h =
      cons_row-take n r _ (scan_events layout rs) _ es (λ out. scan_events-take n rs out) h

  scan_events-row_of :
      (i : ℕ) (e : Envelope) (rs : List (EventRow Stamp)) (es : List Envelope)
      → scan_events layout rs ≡ ok es
      → scan_events layout (row_of layout i e ∷ rs) ≡ ok (e ∷ es)
  unfolding scan_events
  scan_events-row_of i e rs es h = rw (parse-format e.ts, h)

  Below-weaken : (n : ℕ) (rs : List (EventRow Stamp)) → Below n rs → Below (n + 1) rs
  Below-weaken n [] h = tt
  Below-weaken n (r ∷ rs) h = (omega (arith, h.0), Below-weaken n rs h.1)

  Below-append :
      (n : ℕ) (rs : List (EventRow Stamp)) (r : EventRow Stamp)
      → Below n rs
      → r.id < n
      → Below n (rs ++ r ∷ [])
  Below-append n [] r h k = (k, tt)
  Below-append n (q ∷ qs) r h k = (h.0, Below-append n qs r h.1 k)

  abbrev pub appended : Store Stamp → Envelope → Store Stamp
  appended s e = record s {
    events = prune_rows s.ring_capacity (s.events ++ row_of layout (s.last_id + 1) e ∷ []);
    last_id = s.last_id + 1;
  }

  pub append_committed :
      (fault : Fault) (s : Store Stamp) (e : Envelope)
      → aborts fault ≡ false
      → append_event layout fault s e ≡ (appended s e, ok tt)
  unfolding append_event
  append_committed none s e q = refl
  append_committed (some k) s e q = ground arith

  pub append_aborted :
      (fault : Fault) (s : Store Stamp) (e : Envelope)
      → aborts fault ≡ true
      → (x : Error) × (append_event layout fault s e ≡ (s, err x))
  unfolding append_event
  append_aborted none s e q = cc
  append_aborted (some zero) s e q = (begin_failed, refl)
  append_aborted (some (suc zero)) s e q = (insert_failed, refl)
  append_aborted (some (suc (suc zero))) s e q = (prune_failed, refl)
  append_aborted (some (suc (suc (suc zero)))) s e q = (commit_failed, refl)
  append_aborted (some (suc (suc (suc (suc k))))) s e q = ground arith

  appended-Holds :
      (s : Store Stamp) (e : Envelope) (capacity : ℕ) (stored : List Envelope)
      → Holds s capacity stored
      → Holds (appended s e) capacity (take capacity (e ∷ stored))
  appended-Holds s e capacity stored h =
      let r = row_of layout (s.last_id + 1) e in
      let desc = order_desc-append s.events r h.below in
      let first : IsDescending (r ∷ order_desc s.events) =
        (Below-order_desc r.id s.events h.below, h.descending) in
      let sorted : IsDescending (order_desc (s.events ++ r ∷ [])) = rw desc first in
      let pruned = order_desc-prune_rows s.ring_capacity (s.events ++ r ∷ []) sorted in
      record {
        capped = h.capped;
        descending =
            rw (pruned, desc) (take-IsDescending s.ring_capacity (r ∷ order_desc s.events) first);
        below =
            Below-prune_rows _ s.ring_capacity _
              (Below-append _ s.events r (Below-weaken _ s.events h.below) (omega arith));
        shown =
            rw (pruned, desc, h.capped)
              (scan_events-take capacity _ _ (scan_events-row_of _ e _ stored h.shown));
      }

  append-Holds :
      (fault : Fault) (s : Store Stamp) (e : Envelope) (capacity : ℕ) (stored : List Envelope)
      → Holds s capacity (take capacity stored)
      → Holds
          (append_event layout fault s e).0
          capacity
          (take capacity (if aborts fault then stored else e ∷ stored))
  append-Holds fault s e capacity stored h = elim (Bool-cases (aborts fault)) [
    | inl p ↦ rw (p, (append_aborted fault s e p).1) h
    | inr p ↦
        rw (p, append_committed fault s e p)
          (subst (λ l. Holds (appended s e) capacity l) (take-cons-take capacity e stored)
            (appended-Holds s e capacity _ h))
  ]

  -- A new store after a history of appends, each with the fault of its driver calls.
  unfoldable pub run : ℕ → List (Fault × Envelope) → Store Stamp
  run capacity [] = new_store capacity
  run capacity ((fault, e) ∷ older) = (append_event layout fault (run capacity older) e).0

  run-Holds :
      (capacity : ℕ) (hist : List (Fault × Envelope))
      → Holds (run capacity hist) capacity (take capacity (committed hist))
  unfolding run
  run-Holds zero [] =
      unfold new_store order_desc scan_events in
      record { capped = refl; descending = tt; below = tt; shown = refl }
  run-Holds (suc capacity) [] =
      unfold new_store order_desc scan_events in
      record { capped = refl; descending = tt; below = tt; shown = refl }
  run-Holds capacity ((fault, e) ∷ older) =
      append-Holds fault (run capacity older) e capacity (committed older)
        (run-Holds capacity older)

  -- After any appends to a new store, some of which the driver may have failed, Events returns the
  -- newest of the envelopes whose append was committed, newest first and unchanged: at most the
  -- limit, and at most the ring's capacity.
  pub events-run :
      (capacity limit : ℕ) (hist : List (Fault × Envelope))
      → events layout none (run capacity hist) limit
        ≡ ok (take limit (take capacity (committed hist)))
  unfolding events
  events-run capacity limit hist = scan_events-take limit _ _ (run-Holds capacity hist).shown
