-- ===== src/Examples/Graph.antt =====
-- Examples for the joins of graph/.
use supergraph.Common.{
  ◌≡◌, refl, String, true, false, ◌&&◌, ◌||◌, not, ◌⊎◌, Option, none, some, [], ◌∷◌, bytes_eq,
  bytes_eqb, string_eq, ◌==◌, contains, codes,
}
use supergraph.Common.Int.{pos}
use supergraph.Common.Bytes.{Text}
use supergraph.Common.Rows.{any}
use supergraph.Common.Split.{split}
use supergraph.Common.Choose.{Among, IsBest}
use supergraph.Claude.Rows.{SessionRow}
use supergraph.Claude.StateFile.{blank_row}
use supergraph.Claude.Reads.{Session, is_of_issue}
use supergraph.Tmux.Store as Tmux
use supergraph.Github.Query.{NodeJson, PrNode, IssueNode, cached_prs}
use supergraph.Git.Store.{WorktreeNode}
use supergraph.IssueKey.{from_branch}
use supergraph.IssueKey.{span_digits}
use supergraph.Common.Decimal.{read_digits}
use supergraph.IssueKey.Closing.{closing_refs, match_closing, after_verb, after_word, after_scope}
use supergraph.Examples.Github.{tables, sound}
use supergraph.Graph.Unseen.{IsDistinct}
use supergraph.Graph.Issue.{
  Sources, compute_issue_branches, links, derives, tmux_panes_for_issue, claude_sessions_for_issue,
}
use supergraph.Graph.Issue.Branches.{compute_issue_branches-exact}
use supergraph.Graph.Issue.Panes.{tmux_panes_for_issue-exact, is_pane_of, model_key}
use supergraph.Graph.Issue.Sessions.{claude_sessions_for_issue-exact, is_session_of, model_id}
use supergraph.Graph.Worktree as Worktree
use supergraph.Graph.Worktree.{
  split_repo_slug, worktree_pull_request, direct_pr, has_head, is_newer,
}
use supergraph.Graph.Worktree.Best.{tmux_session_for_worktree-least, worktree_pull_request-newest}

abbrev no_json : NodeJson
no_json = record {
  title = [];
  state = [];
  url = [];
  updated_at = [];
  body = [];
  head_ref = codes "issue7/x";
  base_ref = [];
  is_draft = false;
  review_dec = [];
  merge_st = [];
  rollups = [];
  labels = [];
  assignees = [];
}

abbrev on_issue : Text
on_issue = codes "issue7/x"

abbrev session : Tmux.SessionRow
session = record {
  key = codes "session:a@box";
  host_id = codes "box";
  name = codes "a";
  worktree = codes "/w";
  branch = on_issue;
}

abbrev pane : Tmux.PaneRow
pane = record {
  key = codes "pane:a:0.1@box";
  host_id = codes "box";
  session = codes "a";
  window = pos 0;
  pane = pos 1;
  pid = pos 9;
  cmd = codes "zsh";
  path = [];
  active = true;
  free = true;
}

abbrev timed : {A : Type 0} → A → Tmux.Timed A
timed r = record { row = r; last_seen_at = 3; stale_since = none }

abbrev claude_row : SessionRow
claude_row = record (blank_row "box" 3) { git_branch = "issue7/x"; issue_number = pos 7 }

abbrev sources : Sources
sources = record {
  tmux = record {
    tmux_sessions = (session.key, timed session) ∷ [];
    tmux_panes = (pane.key, timed pane) ∷ [];
  };
  claude = record { sessions = ("s", claude_row) ∷ []; folds = [] };
  github = tables;
  decoding = record { decode = λ _. no_json; parse_time = λ _. none };
  sessions_fail = false;
  panes_fail = λ _. false;
  claude_fails = λ _. false;
  linked_claude_fails = λ _. false;
  prs_fail = false;
  walk = λ bs. bs;
}

abbrev seven : IssueNode
seven = record {
  owner = codes "acme";
  repo = codes "app";
  number = pos 7;
  title = [];
  state = [];
  url = [];
  updated_at = none;
  labels = [];
  assignees = [];
}

-- A verb counts within a word, and a colon behind it is no blank.
refs_of_text :
    closing_refs (codes "Fixes #12, unresolved #3 and closed o/r#4; see #5, closes: #6")
    ≡ 12 ∷ 3 ∷ []
unfolding closing_refs match_closing after_verb after_word after_scope span_digits read_digits
refs_of_text = refl

compute_issue_branches-exact_example :
    contains (compute_issue_branches sources (codes "acme") (codes "app") (pos 7)) on_issue ≡ (
      any
        (λ (pr : PrNode). links (pos 7) pr && pr.head_ref_name == on_issue)
        (cached_prs sources.decoding false (codes "acme") (codes "app") tables)
      || ((true
            && any
                (λ (s : Session).
                  is_of_issue (some (pos 7)) s.1
                  && (not (s.1.git_branch == "") && codes s.1.git_branch == on_issue))
                sources.claude.sessions)
          || (true
              && any
                  (λ (s : Text × Tmux.Timed Tmux.SessionRow).
                    derives (pos 7) s.1.row.branch && s.1.row.branch == on_issue)
                  sources.tmux.tmux_sessions)))
compute_issue_branches-exact_example =
    compute_issue_branches-exact sources (codes "acme") (codes "app") (pos 7) on_issue

tmux_panes_for_issue-exact_example :
    ((k : Text)
      → any (λ m. model_key m == k) (tmux_panes_for_issue sources seven)
        ≡ any
            (is_pane_of k
              (compute_issue_branches sources seven.owner seven.repo seven.number)
              sources.tmux)
            sources.tmux.tmux_panes)
    × IsDistinct model_key (tmux_panes_for_issue sources seven)
tmux_panes_for_issue-exact_example =
    tmux_panes_for_issue-exact sources seven (λ p bs. refl) (λ b. refl)

claude_sessions_for_issue-exact_example :
    ((sid : String)
      → any (λ m. model_id m == sid) (claude_sessions_for_issue sources seven) ≡ (
          (true && any (is_session_of sources seven sid) sources.claude.sessions)
          || (true
              && any
                  (λ (s : Session). is_of_issue (some (pos 7)) s.1 && s.0 == sid)
                  sources.claude.sessions)))
    × IsDistinct model_id (claude_sessions_for_issue sources seven)
claude_sessions_for_issue-exact_example = claude_sessions_for_issue-exact sources seven

abbrev worktree : WorktreeNode
worktree = record {
  key = codes "worktree:/w@box";
  host_id = codes "box";
  repo_key = codes "repo:/r@box";
  repo_slug = codes "acme/app";
  path = codes "/w";
  head = [];
  branch = some on_issue;
  detached = false;
  ahead = none;
  behind = none;
}

tmux_session_for_worktree-least_example :
    (r : Option Worktree.Session) × (Worktree.tmux_session_for_worktree
        (timed session ∷ [])
        (codes "/w/")
      ≡ Worktree.modelled r)
    × IsBest
        (Worktree.is_at (codes "/w/"))
        Worktree.is_before
        (λ s. ⊥ ⊎ Among s (timed session ∷ []))
        r
tmux_session_for_worktree-least_example =
    tmux_session_for_worktree-least (timed session ∷ []) (codes "/w/")

worktree_pull_request-newest_example :
    IsBest
      (has_head on_issue)
      is_newer
      (λ pr.
        (direct_pr sources sound (codes "acme") (codes "app") (from_branch on_issue) ≡ some pr)
        ⊎ Among pr (cached_prs sources.decoding false (codes "acme") (codes "app") tables))
      (worktree_pull_request sources sound worktree)
worktree_pull_request-newest_example =
    worktree_pull_request-newest sources sound worktree on_issue (codes "acme") (codes "app") refl
      (unfold split_repo_slug split bytes_eqb in refl)
