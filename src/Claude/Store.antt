-- ===== src/Claude/Store.antt =====
-- plugins/claude/store.go: applyFold and applyEnrichment. The SQL text of a statement is read as a
-- function on its table, and `fault` says at which statement, from 0, the driver fails.
pub mod Counters
pub mod Retry
use supergraph.Common.{
  ℕ, zero, suc, ◌+◌, String, string_eq, Bool, true, false, Option, none, some, List, [], ◌∷◌, ◌++◌,
  map, ◌==◌, nat_eq, ◌&&◌, ◌||◌, not, or_else, is_none, ltb, select, if◌then◌else◌, Fault, fails_at,
}
use supergraph.Common.Int.{ℤ, pos, negsuc}
use supergraph.Common.Dict.{lookup, insert, remove, update_all}
use supergraph.Claude.Reducer.{fold, state_idle, state_ended}
use supergraph.Claude.Redact.{Enrichment, FoldInput, StateFile}
use supergraph.Claude.Rows.{
  SessionRow, FoldKey, Tables, is_zero, set_if, set_nonzero, set_time, insert_cols, enrich_set,
  fold_set, Outcome, ok, failed,
}

-- INSERT … ON CONFLICT(sid) DO UPDATE SET …
abbrev pub upsert :
    (SessionRow → SessionRow → SessionRow)
    → String
    → SessionRow
    → List (String × SessionRow)
    → List (String × SessionRow)
upsert merge sid row sessions =
    insert sid (elim (lookup sid sessions) [ none ↦ row | some r ↦ merge r row ]) sessions

abbrev pub same_fold : FoldKey → FoldKey → Bool
same_fold j k = j.sid == k.sid && j.event == k.event && j.ts == k.ts

unfoldable pub has_key : FoldKey → List FoldKey → Bool
has_key k [] = false
has_key k (j ∷ js) = let rest = has_key k js in if same_fold j k then true else rest

unfoldable pub has_fold : String → List FoldKey → Bool
has_fold sid [] = false
has_fold sid (j ∷ js) = let rest = has_fold sid js in if j.sid == sid then true else rest

abbrev pub state_in : Option SessionRow → String
state_in none = ""
state_in (some r) = r.state

-- `stateOf`: '' for a session that is not there.
unfoldable pub state_of : Tables → String → String
state_of s sid = state_in (lookup sid s.sessions)

-- The row that applyFold binds to foldSQL.
unfoldable pub fold_row : String → FoldInput → String → ℕ → SessionRow
unfolding insert_cols
fold_row prev fi host now =
    let (next, tool_call, ended) = fold prev fi.event fi.permission_ask in
    insert_cols host fi.enrich next (if tool_call then fi.tool else "") (if tool_call then 1 else 0)
      fi.pane fi.pid now (if ended then some now else none)

abbrev pub key_of : FoldInput → FoldKey
key_of fi = record { sid = fi.sid; event = fi.event; ts = fi.ts }

-- The statements of applyFold are not one transaction: what the first wrote stays if the last fails.
-- An error of `stateOf` between them is dropped, and reads as the state ''.
unfoldable pub apply_fold : Fault → FoldInput → String → ℕ → Tables → Tables × Outcome Bool
unfolding fold_row fold_set has_key state_of
apply_fold fault fi host now s =
    if fails_at 0 fault
    then (s, failed)
    else if has_key (key_of fi) s.folds
    then (s, ok false)
    else let t : Tables = record s { folds = s.folds ++ key_of fi ∷ [] } in
      let prev = if fails_at 1 fault then "" else state_of t fi.sid in
      if fails_at 2 fault then (t, failed) else (
        record t { sessions = upsert fold_set fi.sid (fold_row prev fi host now) t.sessions },
        ok true,
      )

unfoldable pub apply_enrichment :
    Fault → String → String → Enrichment → ℕ → Tables → Tables × Outcome (Unit {0})
unfolding insert_cols enrich_set
apply_enrichment fault sid host e now s = if fails_at 0 fault then (s, failed) else (
  record s {
    sessions =
        upsert enrich_set sid (insert_cols host e state_idle "" 0 "" (pos 0) now none) s.sessions;
  },
  ok tt,
)
