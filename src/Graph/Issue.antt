-- ===== src/Graph/Issue.antt =====
-- graph/github_map.go: the join of an issue, and of a pull request, with panes and sessions.
pub mod Branches
pub mod Panes
pub mod Sessions
use supergraph.Common.{
  ℕ, ◌≡◌, String, Bool, true, false, ◌&&◌, ◌||◌, not, Option, none, some, List, [], ◌∷◌, ◌++◌,
  bytes_eq, bytes_eqb, string_eq, ◌==◌, if◌then◌else◌, eqb, contains, codes, map, or_else,
}
use supergraph.Common.Int.{ℤ, pos, eqb_ℤ}
use supergraph.Common.Bytes.{Text}
use supergraph.IssueKey.{from_branch}
use supergraph.IssueKey.Closing.{closing_refs}
use supergraph.Tmux.Store as Tmux
use supergraph.Tmux.Reads.{scan_sessions, panes_for_branch}
use supergraph.Claude.Rows as Claude
use supergraph.Claude.Reads.{Session, query_sessions}
use supergraph.Github.Store as Github
use supergraph.Github.Query.{Decoding, IssueNode, PrNode, cached_prs}
use supergraph.Graph.Model.{TmuxPane, ClaudeSession, panes_to_model, claude_session_model}
use supergraph.Graph.Unseen.{add_unseen}

-- What the plugins hold, which of their reads fail, and in which order a map of Go is walked.
pub record Sources : Type 0 where
  pub tmux : Tmux.Tables
  pub claude : Claude.Tables
  pub github : Github.Tables
  pub decoding : Decoding
  pub sessions_fail : Bool
  pub panes_fail : Text → Bool
  pub claude_fails : Option ℤ → Bool
  pub linked_claude_fails : ℤ → Bool
  pub prs_fail : Bool
  pub walk : List Text → List Text

abbrev pub is_number : ℤ → Option ℕ → Bool
is_number n none = false
is_number n (some k) = eqb_ℤ (pos k) n

-- The branch is one that derives to the issue.
abbrev pub derives : ℤ → Text → Bool
derives n branch = is_number n (from_branch branch)

unfoldable pub contains_int : List ℕ → ℤ → Bool
contains_int [] n = false
contains_int (x ∷ xs) n = let rest = contains_int xs n in if eqb_ℤ (pos x) n then true else rest

-- The set of branches: a key of a map.
abbrev pub put_if : Bool → Text → List Text → List Text
put_if test b set = if test && not (contains set b) then b ∷ set else set

unfoldable pub put_sessions : ℤ → List (Tmux.Timed Tmux.SessionRow) → List Text → List Text
put_sessions n [] set = set
put_sessions n (s ∷ ss) set = put_sessions n ss (put_if (derives n s.row.branch) s.row.branch set)

unfoldable pub put_claude : List Session → List Text → List Text
put_claude [] set = set
put_claude (s ∷ ss) set =
    put_claude ss (put_if (not (s.1.git_branch == "")) (codes s.1.git_branch) set)

-- The pull request's head is the issue's branch, or its text closes the issue.
abbrev pub links : ℤ → PrNode → Bool
links n pr =
    not (pr.head_ref_name == [])
    && (derives n pr.head_ref_name || contains_int (closing_refs (pr.body ++ b'\n' ∷ pr.title)) n)

unfoldable pub put_prs : ℤ → List PrNode → List Text → List Text
put_prs n [] set = set
put_prs n (pr ∷ prs) set = put_prs n prs (put_if (links n pr) pr.head_ref_name set)

unfoldable pub compute_issue_branches : Sources → Text → Text → ℤ → List Text
compute_issue_branches src owner repo n =
    put_prs n (cached_prs src.decoding src.prs_fail owner repo src.github) (
      put_claude (query_sessions (src.linked_claude_fails n) none (some n) src.claude)
        (put_sessions n (or_else (scan_sessions src.sessions_fail [] src.tmux) []) []))

-- A read that fails is passed over.
abbrev pub panes_on : Sources → Text → List (Tmux.Timed Tmux.PaneRow)
panes_on src branch = or_else (panes_for_branch (src.panes_fail branch) branch src.tmux) []

abbrev pub pane_key : Tmux.Timed Tmux.PaneRow → Text
pane_key p = p.row.key

unfoldable pub panes_on_branches :
    Sources
    → List Text
    → List Text × List (Tmux.Timed Tmux.PaneRow)
    → List Text × List (Tmux.Timed Tmux.PaneRow)
panes_on_branches src [] st = st
panes_on_branches src (b ∷ bs) st =
    panes_on_branches src bs (add_unseen pane_key (panes_on src b) st)

unfoldable pub tmux_panes_for_issue : Sources → IssueNode → List TmuxPane
tmux_panes_for_issue src i =
    let branches = src.walk (compute_issue_branches src i.owner i.repo i.number) in
    panes_to_model (panes_on_branches src branches ([], [])).1

abbrev pub session_id : Session → String
session_id s = s.0

-- The sessions on a branch that passes the test, in the order of the rows.
unfoldable pub on_branch : (Text → Bool) → List Session → List Session
on_branch test [] = []
on_branch test (s ∷ ss) =
    let rest = on_branch test ss in if test (codes s.1.git_branch) then s ∷ rest else rest

abbrev all_sessions : Sources → List Session
all_sessions src = query_sessions (src.claude_fails none) none none src.claude

abbrev pub issue_sessions : Sources → ℤ → List Session
issue_sessions src n = query_sessions (src.claude_fails (some n)) none (some n) src.claude

-- A row is turned into its model when it is added in the source, and at the end here.
unfoldable pub claude_sessions_for_issue : Sources → IssueNode → List ClaudeSession
claude_sessions_for_issue src i =
    let branches = compute_issue_branches src i.owner i.repo i.number in
    map claude_session_model
      (add_unseen session_id
        (on_branch (λ b. not (b == []) && contains branches b) (all_sessions src))
        (add_unseen session_id (issue_sessions src i.number) ([], []))).1

unfoldable pub panes_for_branch_model : Sources → Text → List TmuxPane
panes_for_branch_model src branch = panes_to_model (panes_on src branch)

abbrev derived_sessions : Sources → Option ℕ → List Session
derived_sessions src none = []
derived_sessions src (some n) = issue_sessions src (pos n)

unfoldable pub claude_sessions_on_branch_model : Sources → Text → List ClaudeSession
claude_sessions_on_branch_model src branch =
    map claude_session_model
      (add_unseen session_id (on_branch (λ b. b == branch) (all_sessions src))
        (add_unseen session_id (derived_sessions src (from_branch branch)) ([], []))).1
