-- ===== src/Graph/Model.antt =====
-- graph/claude_map.go, tmux_helpers.go and git_map.go: the rows of the plugins as types of the schema.
use supergraph.Common.{
  ℕ, String, string_eq, Bool, Option, none, some, List, [], ◌∷◌, ◌==◌, if◌then◌else◌, map,
}
use supergraph.Common.Int.{ℤ}
use supergraph.Common.Bytes.{Text}
use supergraph.Claude.Rows.{is_zero}
use supergraph.Claude.Reads.{Session}
use supergraph.Tmux.Store as Tmux
use supergraph.Tmux.Reads.{SlotRow}

-- An empty text is null.
abbrev pub opt_str : Text → Option Text
opt_str [] = none
opt_str (c ∷ s) = some (c ∷ s)

abbrev opt_string : String → Option String
opt_string s = if s == "" then none else some s

abbrev opt_int : ℤ → Option ℤ
opt_int n = if is_zero n then none else some n

pub record TmuxPane : Type 0 where
  pub host_id : Text
  pub key : Text
  pub session : Text
  pub window : ℤ
  pub pane : ℤ
  pub pid : ℤ
  pub cmd : Text
  pub path : Option Text
  pub active : Bool
  pub free : Bool
  pub stale_since : Option ℕ

pub record TmuxSession : Type 0 where
  pub host_id : Text
  pub name : Text
  pub worktree : Option Text
  pub branch : Option Text
  pub last_seen_at : ℕ
  pub stale_since : Option ℕ

pub record Slot : Type 0 where
  pub host_id : Text
  pub kind : Text
  pub free : Bool
  pub pane_key : Option Text
  pub stale_since : Option ℕ

pub record ClaudeSession : Type 0 where
  pub host_id : String
  pub session_id : String
  pub cwd : String
  pub state : String
  pub tool_calls : ℕ
  pub started_at : ℕ
  pub last_event_at : ℕ
  pub stale_since : Option ℕ
  pub git_branch : Option String
  pub issue_number : Option ℤ
  pub model : Option String
  pub last_tool : Option String
  pub pr_number : Option ℤ
  pub pr_url : Option String
  pub mission : Option String
  pub last_response : Option String
  pub pane_title : Option String

abbrev pub pane_model : Tmux.Timed Tmux.PaneRow → TmuxPane
pane_model p = record {
  host_id = p.row.host_id;
  key = p.row.key;
  session = p.row.session;
  window = p.row.window;
  pane = p.row.pane;
  pid = p.row.pid;
  cmd = p.row.cmd;
  path = opt_str p.row.path;
  active = p.row.active;
  free = p.row.free;
  stale_since = p.stale_since;
}

unfoldable pub panes_to_model : List (Tmux.Timed Tmux.PaneRow) → List TmuxPane
panes_to_model rows = map pane_model rows

unfoldable pub tmux_session_model : Tmux.Timed Tmux.SessionRow → TmuxSession
tmux_session_model s = record {
  host_id = s.row.host_id;
  name = s.row.name;
  worktree = opt_str s.row.worktree;
  branch = opt_str s.row.branch;
  last_seen_at = s.last_seen_at;
  stale_since = s.stale_since;
}

abbrev slot_model : SlotRow → Slot
slot_model s = record {
  host_id = s.host_id;
  kind = s.kind;
  free = s.free;
  pane_key = opt_str s.pane_key;
  stale_since = s.stale_since;
}

unfoldable pub slots_model : Option (List SlotRow) → Option (List Slot)
slots_model none = none
slots_model (some rows) = some (map slot_model rows)

unfoldable pub claude_session_model : Session → ClaudeSession
claude_session_model (sid, r) = record {
  host_id = r.host_id;
  session_id = sid;
  cwd = r.cwd;
  state = r.state;
  tool_calls = r.tool_calls;
  started_at = r.started_at;
  last_event_at = r.last_event_at;
  stale_since = r.stale_since;
  git_branch = opt_string r.git_branch;
  issue_number = opt_int r.issue_number;
  model = opt_string r.model;
  last_tool = opt_string r.last_tool;
  pr_number = opt_int r.pr_number;
  pr_url = opt_string r.pr_url;
  mission = opt_string r.mission;
  last_response = opt_string r.last_response;
  pane_title = opt_string r.pane_title;
}
