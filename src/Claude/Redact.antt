-- ===== src/Claude/Redact.antt =====
-- plugins/claude/redact.go and keys.go: what is kept of a hook payload.
pub mod Privacy
use supergraph.Common.{
  ℕ, String, string_eq, Bool, Option, none, some, ◌==◌, ◌&&◌, not, codes, or_else,
}
use supergraph.IssueKey.{from_branch}
use supergraph.Claude.Reducer.{is_nag}
use supergraph.Common.Int.{ℤ, pos}

pub record Enrichment : Type 0 where
  pub cwd : String
  pub git_branch : String
  pub model : String
  pub pr_url : String
  pub issue_number : ℤ
  pub pr_number : ℤ

pub record FoldInput : Type 0 where
  pub sid : String
  pub event : String
  pub ts : String
  pub tool : String
  pub permission_ask : Bool
  pub pane : String
  pub pid : ℤ
  pub enrich : Enrichment

pub record HookPayload : Type 0 where
  pub session_id : String
  pub event : String
  pub cwd : String
  pub tool_name : String
  pub message : String
  pub git_branch : String
  pub model : String
  pub tmux_pane : String
  pub pid : ℤ
  pub issue_number : Option ℤ
  pub ts : String

pub record StateFile : Type 0 where
  pub sid : String
  pub cwd : String
  pub pid : ℤ
  pub pane : String
  pub state : String
  pub first_prompt : String
  pub last_response : String

abbrev pub issue_of : Option ℤ → ℤ → ℤ
issue_of none derived = derived
issue_of (some n) derived = n

-- keys.go
unfoldable pub issue_from_branch : String → ℕ
issue_from_branch branch = or_else (from_branch (codes branch)) 0

unfoldable pub project_hook : HookPayload → FoldInput
project_hook p = record {
  sid = p.session_id;
  event = p.event;
  ts = p.ts;
  tool = p.tool_name;
  permission_ask = p.event == "Notification" && not (is_nag p.message);
  pane = p.tmux_pane;
  pid = p.pid;
  enrich = record {
    cwd = p.cwd;
    git_branch = p.git_branch;
    model = p.model;
    pr_url = "";
    issue_number = issue_of p.issue_number (pos (issue_from_branch p.git_branch));
    pr_number = pos 0;
  };
}
