-- ===== src/Claude/Rows.antt =====
-- plugins/claude/store.go: the rows of claude_sessions and claude_folds, and the conflict clauses
-- that merge a new row into a stored one. A time column holds a time; the text '' of stale_since is
-- `none`. A text column that may be NULL is read as '' by scanRow, and is '' here.
use supergraph.Common.{
  ℕ, zero, suc, ◌+◌, String, string_eq, Bool, true, false, Option, none, some, List, ◌==◌, nat_eq,
  if◌then◌else◌,
}
use supergraph.Common.Int.{ℤ, pos, negsuc}
use supergraph.Claude.Redact.{Enrichment}

pub record SessionRow : Type 0 where
  pub host_id : String
  pub cwd : String
  pub git_branch : String
  pub model : String
  pub state : String
  pub last_tool : String
  pub pane : String
  pub pr_url : String
  pub mission : String
  pub last_response : String
  pub pane_title : String
  pub issue_number : ℤ
  pub tool_calls : ℕ
  pub pid : ℤ
  pub pr_number : ℤ
  pub started_at : ℕ
  pub last_event_at : ℕ
  pub stale_since : Option ℕ

-- A row of claude_folds: its primary key is the whole row.
pub record FoldKey : Type 0 where
  pub sid : String
  pub event : String
  pub ts : String

pub record Tables : Type 0 where
  pub sessions : List (String × SessionRow)
  pub folds : List FoldKey

abbrev pub is_zero : ℤ → Bool
is_zero (pos zero) = true
is_zero (pos (suc n)) = false
is_zero (negsuc n) = false

-- CASE WHEN excluded.c <> '' THEN excluded.c ELSE claude_sessions.c END, and `setIf`
abbrev pub set_if : String → String → String
set_if stored new = if new == "" then stored else new

-- The same, for a number and 0 and for a time that may be ''.
abbrev pub set_nonzero : ℤ → ℤ → ℤ
set_nonzero stored new = if is_zero new then stored else new

abbrev pub set_time : Option ℕ → Option ℕ → Option ℕ
set_time stored none = stored
set_time stored (some t) = some t

-- The values of `insertCols`; the three columns that it does not name are NULL.
unfoldable pub insert_cols :
    String → Enrichment → String → String → ℕ → String → ℤ → ℕ → Option ℕ → SessionRow
insert_cols host e state last_tool tool_calls pane pid now stale = record {
  host_id = host;
  cwd = e.cwd;
  git_branch = e.git_branch;
  model = e.model;
  state = state;
  last_tool = last_tool;
  pane = pane;
  pr_url = e.pr_url;
  mission = "";
  last_response = "";
  pane_title = "";
  issue_number = e.issue_number;
  tool_calls = tool_calls;
  pid = pid;
  pr_number = e.pr_number;
  started_at = now;
  last_event_at = now;
  stale_since = stale;
}

-- `enrichSet`, over the stored row and the excluded one.
unfoldable pub enrich_set : SessionRow → SessionRow → SessionRow
enrich_set r excluded = record r {
  last_event_at = excluded.last_event_at;
  cwd = set_if r.cwd excluded.cwd;
  git_branch = set_if r.git_branch excluded.git_branch;
  issue_number = set_nonzero r.issue_number excluded.issue_number;
  model = set_if r.model excluded.model;
  pane = set_if r.pane excluded.pane;
  pid = set_nonzero r.pid excluded.pid;
  pr_number = set_nonzero r.pr_number excluded.pr_number;
  pr_url = set_if r.pr_url excluded.pr_url;
}

-- The conflict clause of `foldSQL`.
unfoldable pub fold_set : SessionRow → SessionRow → SessionRow
unfolding enrich_set
fold_set r excluded = record (enrich_set r excluded) {
  state = excluded.state;
  tool_calls = r.tool_calls + excluded.tool_calls;
  last_tool = set_if r.last_tool excluded.last_tool;
  stale_since = set_time r.stale_since excluded.stale_since;
}

-- What a call returns: an error, or a value.
pub data Outcome (A : Type 0) : Type 0 where
  ok : A → Outcome A
  failed : Outcome A

-- The tool counter of a row, 0 for a session that is not there.
abbrev pub calls_in : Option SessionRow → ℕ
calls_in none = 0
calls_in (some r) = r.tool_calls
