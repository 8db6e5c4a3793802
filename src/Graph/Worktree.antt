-- ===== src/Graph/Worktree.antt =====
-- graph/git_map.go, and the fields of a worktree in graph/git.resolvers.go: its tmux session, its issue
-- and its pull request.
pub mod Best
use supergraph.Common.{
  ℕ, ◌≡◌, Bool, true, false, not, Option, none, some, List, [], ◌∷◌, ◌++◌, bytes_eq, bytes_eqb,
  ◌==◌, if◌then◌else◌, codes, or_else,
}
use supergraph.Common.Int.{ltb_ℤ}
use supergraph.Common.Bytes.{Text}
use supergraph.Common.Split.{clean, split}
use supergraph.Common.Order.{lex_leb}
use supergraph.Common.Decimal.{print_nat}
use supergraph.Common.Choose.{choose}
use supergraph.IssueKey.{from_branch}
use supergraph.Tmux.Store as Tmux
use supergraph.Tmux.Reads.{scan_sessions}
use supergraph.Github.Query.{PrNode, IssueNode, issue, pull_request, cached_prs}
use supergraph.Github.Store.{Driver}
use supergraph.Git.Store.{WorktreeNode}
use supergraph.Graph.Model.{TmuxSession, tmux_session_model}
use supergraph.Graph.Issue.{Sources}

abbrev pub Session : Type 0
Session = Tmux.Timed Tmux.SessionRow

abbrev pub is_at : Text → Session → Bool
is_at path s = clean s.row.worktree == clean path

-- s.Name < best.Name
abbrev pub is_before : Session → Session → Bool
is_before s best = not (lex_leb best.row.name s.row.name)

abbrev pub modelled : Option Session → Option TmuxSession
modelled none = none
modelled (some s) = some (tmux_session_model s)

unfoldable pub tmux_session_for_worktree : List Session → Text → Option TmuxSession
tmux_session_for_worktree sessions path = modelled (choose (is_at path) is_before none sessions)

-- Exactly two segments, neither of which is empty.
abbrev pub two_parts : List Text → Option (Text × Text)
two_parts (o ∷ r ∷ []) = if o == [] then none else if r == [] then none else some (o, r)
two_parts _ = none

unfoldable pub split_repo_slug : Text → Option (Text × Text)
split_repo_slug slug = two_parts (split b'/' slug)

abbrev pub has_head : Text → PrNode → Bool
has_head branch pr = pr.head_ref_name == branch

-- pr.Number > best.Number
abbrev pub is_newer : PrNode → PrNode → Bool
is_newer pr best = ltb_ℤ best.number pr.number

abbrev pub direct_if : Text → Option PrNode → Option PrNode
direct_if branch none = none
direct_if branch (some pr) = if has_head branch pr then some pr else none

unfoldable pub pull_request_for_worktree : Option PrNode → List PrNode → Text → Option PrNode
pull_request_for_worktree direct cached branch =
    choose (has_head branch) is_newer (direct_if branch direct) cached

abbrev pub node_key : Text → Text → Text → ℕ → Text
node_key kind owner repo n = kind ++ owner ++ b'/' ∷ repo ++ b'#' ∷ print_nat n

unfoldable pub worktree_tmux_session : Sources → WorktreeNode → Option TmuxSession
worktree_tmux_session src w =
    tmux_session_for_worktree (or_else (scan_sessions src.sessions_fail [] src.tmux) []) w.path

abbrev pub issue_of : Sources → Driver → Option ℕ → Option (Text × Text) → Option IssueNode
issue_of src d none slug = none
issue_of src d (some n) none = none
issue_of src d (some n) (some (owner, repo)) =
    issue src.decoding d (node_key (codes "issue:") owner repo n) src.github

abbrev issue_on : Sources → Driver → Text → Option Text → Option IssueNode
issue_on src d slug none = none
issue_on src d slug (some branch) = issue_of src d (from_branch branch) (split_repo_slug slug)

unfoldable pub worktree_issue : Sources → Driver → WorktreeNode → Option IssueNode
worktree_issue src d w = issue_on src d w.repo_slug w.branch

abbrev pub direct_pr : Sources → Driver → Text → Text → Option ℕ → Option PrNode
direct_pr src d owner repo none = none
direct_pr src d owner repo (some n) =
    pull_request src.decoding d (node_key (codes "pr:") owner repo n) src.github

abbrev pub pr_of : Sources → Driver → Text → Option (Text × Text) → Option PrNode
pr_of src d branch none = none
pr_of src d branch (some (owner, repo)) =
    pull_request_for_worktree (direct_pr src d owner repo (from_branch branch))
      (cached_prs src.decoding src.prs_fail owner repo src.github) branch

abbrev pr_on : Sources → Driver → Text → Option Text → Option PrNode
pr_on src d slug none = none
pr_on src d slug (some branch) = pr_of src d branch (split_repo_slug slug)

unfoldable pub worktree_pull_request : Sources → Driver → WorktreeNode → Option PrNode
worktree_pull_request src d w = pr_on src d w.repo_slug w.branch
