-- ===== src/Core/Store.antt =====
-- core/store.go: the tables of one plugin's database. The SQL text of a statement is read as a
-- function on its table. The driver can fail at each statement: `fault` says at which one it does,
-- and the number of the statement counts from 0. `layout` is the time package's printing and
-- reading of a time.
mod Order
pub mod Ring
use supergraph.Common.{
  ℕ, zero, suc, ◌+◌, ◌≡◌, String, Bool, true, false, Option, none, some, List, [], ◌∷◌, ◌++◌, ltb,
  ◌==◌, nat_eq, string_eq, if◌then◌else◌, take, select, map, contains, or_else, Fault, fails_at,
}
use supergraph.Common.Dict.{lookup, insert}
use supergraph.Core.Envelope.{Envelope}

-- `time.Format` and `time.Parse` at timeLayout, of which a time printed in UTC is read back.
pub record TimeLayout : Type 1 where
  pub Stamp : Type 0
  pub format : ℕ → Stamp
  pub parse : Stamp → Option ℕ
  pub parse-format : (t : ℕ) → parse (format t) ≡ some t

pub data Error : Type 0 where
  begin_failed insert_failed prune_failed commit_failed query_failed parse_failed : Error

pub data Result {ℓ} (A : Type ℓ) : Type ℓ where
  ok : A → Result A
  err : Error → Result A

-- A row of `events`.
pub record EventRow (Stamp : Type 0) : Type 0 where
  pub id : ℕ
  pub ts : Stamp
  pub source : String
  pub type : String
  pub v : ℕ
  pub key : String
  pub payload : List ℕ

-- The tables, the last id that AUTOINCREMENT gave, and the store's own capacity.
pub record Store (Stamp : Type 0) : Type 0 where
  pub events : List (EventRow Stamp)
  pub last_id : ℕ
  pub cursors : List (String × String)
  pub versions : List ℕ
  pub ring_capacity : ℕ

module _ {Stamp : Type 0} where
  -- What `OpenStore` leaves of a database file that was not there.
  unfoldable pub new_store : ℕ → Store Stamp
  new_store capacity = record {
    events = [];
    last_id = 0;
    cursors = [];
    versions = 1 ∷ [];
    ring_capacity = capacity;
  }

  -- ORDER BY id DESC
  unfoldable pub insert_desc : EventRow Stamp → List (EventRow Stamp) → List (EventRow Stamp)
  insert_desc r [] = r ∷ []
  insert_desc r (q ∷ qs) = if ltb r.id q.id then q ∷ insert_desc r qs else r ∷ q ∷ qs

  unfoldable pub order_desc : List (EventRow Stamp) → List (EventRow Stamp)
  unfolding insert_desc
  order_desc [] = []
  order_desc (r ∷ rs) = insert_desc r (order_desc rs)

  abbrev pub ids : List (EventRow Stamp) → List ℕ
  ids [] = []
  ids (r ∷ rs) = r.id ∷ ids rs

  -- DELETE FROM events WHERE id NOT IN (SELECT id FROM events ORDER BY id DESC LIMIT ?)
  unfoldable pub prune_rows : ℕ → List (EventRow Stamp) → List (EventRow Stamp)
  unfolding order_desc
  prune_rows limit rows =
      let newest = ids (take limit (order_desc rows)) in select (λ r. contains newest r.id) rows

  -- The cursors table.
  unfoldable pub set_cursor : Fault → Store Stamp → String → String → Result (Store Stamp)
  set_cursor fault s name value =
      if fails_at 0 fault
      then err insert_failed
      else ok (record s { cursors = insert name value s.cursors })

  unfoldable pub cursor : Fault → Store Stamp → String → Result String
  cursor fault s name =
      if fails_at 0 fault then err query_failed else ok (or_else (lookup name s.cursors) "")

module _ (layout : TimeLayout) where
  open layout use {Stamp, format, parse}

  abbrev pub row_of : ℕ → Envelope → EventRow Stamp
  row_of id e = record {
    id = id;
    ts = format e.ts;
    source = e.source;
    type = e.type;
    v = e.v;
    key = e.key;
    payload = e.payload;
  }

  -- The transaction works on a copy, which takes the place of the store at the commit; the deferred
  -- rollback leaves the store as it was.
  unfoldable pub append_event : Fault → Store Stamp → Envelope → Store Stamp × Result (Unit {0})
  unfolding prune_rows
  append_event fault s e =
      let inserted = s.events ++ row_of (s.last_id + 1) e ∷ [] in
      let pruned = prune_rows s.ring_capacity inserted in
      if fails_at 0 fault
      then (s, err begin_failed)
      else if fails_at 1 fault
      then (s, err insert_failed)
      else if fails_at 2 fault
      then (s, err prune_failed)
      else if fails_at 3 fault
      then (s, err commit_failed)
      else (record s { events = pruned; last_id = s.last_id + 1 }, ok tt)

  abbrev pub envelope_of : ℕ → EventRow Stamp → Envelope
  envelope_of ts r = record {
    ts = ts;
    source = r.source;
    type = r.type;
    v = r.v;
    key = r.key;
    payload = r.payload;
  }

  -- One turn of the loop over the rows of the query; the first row that fails is the error.
  abbrev pub cons_row : EventRow Stamp → Option ℕ → Result (List Envelope) → Result (List Envelope)
  cons_row r none rest = err parse_failed
  cons_row r (some ts) (err x) = err x
  cons_row r (some ts) (ok out) = ok (envelope_of ts r ∷ out)

  unfoldable pub scan_events : List (EventRow Stamp) → Result (List Envelope)
  scan_events [] = ok []
  scan_events (r ∷ rs) = cons_row r (parse r.ts) (scan_events rs)

  unfoldable pub events : Fault → Store Stamp → ℕ → Result (List Envelope)
  unfolding scan_events order_desc
  events fault s limit =
      if fails_at 0 fault then err query_failed else scan_events (take limit (order_desc s.events))
