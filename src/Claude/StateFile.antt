-- ===== src/Claude/StateFile.antt =====
-- applyStateFile of plugins/claude/store.go, and truncRunes of statefile.go. The statements are its
-- read of the row, its read of the folds and its write, from 0.
pub mod Authority
pub mod Rescan
use supergraph.Common.{
  ℕ, zero, suc, ◌+◌, String, string_eq, Bool, true, false, Option, none, some, List, [], ◌∷◌, ◌++◌,
  map, ◌==◌, nat_eq, ◌&&◌, ◌||◌, not, or_else, is_none, ltb, select, if◌then◌else◌, Fault, fails_at,
}
use supergraph.Common.Int.{ℤ, pos, negsuc}
use supergraph.Common.Dict.{lookup, insert, remove, update_all}
use supergraph.Claude.Reducer.{fold, state_idle, state_ended}
use supergraph.Claude.Redact.{Enrichment, FoldInput, StateFile}
use supergraph.Claude.Rows.{
  SessionRow, FoldKey, Tables, is_zero, set_if, set_nonzero, set_time, insert_cols, enrich_set,
  fold_set, Outcome, ok, failed,
}
use supergraph.Claude.Store.{has_fold}

-- `truncRunes` of statefile.go: at most the first n code points.
unfoldable pub trunc_runes : String → ℕ → String
trunc_runes s zero = ""
trunc_runes String.[] (suc n) = ""
trunc_runes (String.◌∷◌ c s) (suc n) = String.◌∷◌ c (trunc_runes s n)

abbrev pub mission_max_runes : ℕ
mission_max_runes = 120

abbrev pub last_response_max_runes : ℕ
last_response_max_runes = 200

-- The zero row from which applyStateFile starts for a session that is not there, and the values of
-- the columns that `stateFileInsert` names with a constant.
abbrev pub blank_row : String → ℕ → SessionRow
blank_row host now = record {
  host_id = host;
  cwd = "";
  git_branch = "";
  model = "";
  state = state_idle;
  last_tool = "";
  pane = "";
  pr_url = "";
  mission = "";
  last_response = "";
  pane_title = "";
  issue_number = pos 0;
  tool_calls = 0;
  pid = pos 0;
  pr_number = pos 0;
  started_at = now;
  last_event_at = now;
  stale_since = none;
}

-- The seven fields after the file's values are put in; `folded` is what `hasFold` returned.
unfoldable pub file_row : SessionRow → StateFile → String → Bool → SessionRow
unfolding trunc_runes
file_row r sf title folded = record r {
  cwd = set_if r.cwd sf.cwd;
  pane = set_if r.pane sf.pane;
  mission = set_if r.mission (trunc_runes sf.first_prompt mission_max_runes);
  last_response = set_if r.last_response (trunc_runes sf.last_response last_response_max_runes);
  pane_title = set_if r.pane_title title;
  pid = set_nonzero r.pid sf.pid;
  state = if folded then r.state else set_if r.state sf.state;
}

abbrev pub eq_ℤ : ℤ → ℤ → Bool
eq_ℤ (pos a) (pos b) = a == b
eq_ℤ (negsuc a) (negsuc b) = a == b
eq_ℤ (pos a) (negsuc b) = false
eq_ℤ (negsuc a) (pos b) = false

-- The test for a file that changes nothing.
abbrev pub same_file_fields : SessionRow → SessionRow → Bool
same_file_fields a b =
    a.cwd == b.cwd
    && a.pane == b.pane
    && a.state == b.state
    && a.mission == b.mission
    && a.last_response == b.last_response
    && a.pane_title == b.pane_title
    && eq_ℤ a.pid b.pid

abbrev pub write_row : Fault → String → SessionRow → Tables → Tables × Outcome Bool
write_row fault sid row s =
    if fails_at 2 fault
    then (s, failed)
    else (record s { sessions = insert sid row s.sessions }, ok true)

abbrev pub reconcile_file :
    Fault
    → StateFile
    → String
    → Bool
    → String
    → ℕ
    → Option SessionRow
    → Tables
    → Tables × Outcome Bool
reconcile_file fault sf title folded host now none s =
    write_row fault sf.sid (file_row (blank_row host now) sf title folded) s
reconcile_file fault sf title folded host now (some cur) s =
    if same_file_fields (file_row cur sf title folded) cur
    then (s, ok false)
    else write_row fault sf.sid (record (file_row cur sf title folded) { last_event_at = now }) s

-- An error of `hasFold` is dropped, and reads as a session that was never folded.
unfoldable pub apply_state_file :
    Fault → StateFile → String → String → ℕ → Tables → Tables × Outcome Bool
unfolding file_row has_fold
apply_state_file fault sf title host now s =
    if fails_at 0 fault
    then (s, failed)
    else reconcile_file fault sf title (not (fails_at 1 fault) && has_fold sf.sid s.folds) host now
        (lookup sf.sid s.sessions) s
