-- ===== src/Claude/Sweep.antt =====
-- prune and staleScan of plugins/claude/store.go.
pub mod Exact
use supergraph.Common.{
  ℕ, zero, suc, ◌+◌, String, string_eq, Bool, true, false, Option, none, some, List, [], ◌∷◌, ◌++◌,
  map, ◌==◌, nat_eq, ◌&&◌, ◌||◌, not, or_else, is_none, ltb, select, if◌then◌else◌, Fault, fails_at,
}
use supergraph.Common.Int.{ℤ, pos, negsuc}
use supergraph.Common.Dict.{lookup, insert, remove, update_all}
use supergraph.Claude.Reducer.{fold, state_idle, state_ended}
use supergraph.Claude.Redact.{Enrichment, FoldInput, StateFile}
use supergraph.Claude.Rows.{
  SessionRow, FoldKey, Tables, is_zero, set_if, set_nonzero, set_time, insert_cols, enrich_set,
  fold_set, Outcome, ok, failed,
}

-- The sids of the rows that pass a test.
unfoldable pub sids_where : (SessionRow → Bool) → List (String × SessionRow) → List String
sids_where p [] = []
sids_where p ((sid, r) ∷ m) = let rest = sids_where p m in if p r then sid ∷ rest else rest

-- The sids that the query of `prune` returns and its loop keeps.
abbrev pub old_sids : ℕ → List (String × SessionRow) → List String
old_sids cutoff = sids_where (λ r. ltb r.last_event_at cutoff)

-- DELETE FROM claude_folds WHERE sid=?
abbrev pub drop_folds : String → List FoldKey → List FoldKey
drop_folds sid folds = select (λ j. not (j.sid == sid)) folds

unfoldable pub delete_sids : List String → Tables → Tables
delete_sids [] s = s
delete_sids (sid ∷ sids) s =
    delete_sids sids (record { sessions = remove sid s.sessions; folds = drop_folds sid s.folds })

-- `prune` where no statement fails.
unfoldable pub prune : ℕ → Tables → Tables
unfolding sids_where delete_sids
prune cutoff s = delete_sids (old_sids cutoff s.sessions) s

abbrev pub is_gone : (ℤ → Bool) → SessionRow → Bool
is_gone alive r =
    not (is_zero r.pid)
    && not (r.state == state_ended)
    && is_none r.stale_since
    && not (alive r.pid)

-- The sids that the query of `staleScan` returns and whose process is gone.
abbrev pub dead_sids : (ℤ → Bool) → List (String × SessionRow) → List String
dead_sids alive = sids_where (is_gone alive)

-- UPDATE claude_sessions SET stale_since=? WHERE sid=?
abbrev pub stamp_stale : String → ℕ → List (String × SessionRow) → List (String × SessionRow)
stamp_stale sid now =
    update_all {V = SessionRow} (λ k r. if k == sid then record r { stale_since = some now } else r)

unfoldable pub mark_dead : List String → ℕ → List (String × SessionRow) → List (String × SessionRow)
mark_dead [] now m = m
mark_dead (sid ∷ sids) now m = mark_dead sids now (stamp_stale sid now m)

-- `staleScan` where no statement fails.
unfoldable pub stale_scan : ℕ → (ℤ → Bool) → Tables → Tables × List String
unfolding sids_where mark_dead
stale_scan now alive s =
    let dead = dead_sids alive s.sessions in
    (record s { sessions = mark_dead dead now s.sessions }, dead)
