-- ===== src/Graph/Issue/Sessions.antt =====
-- The claude sessions of an issue, for claudeSessionsForIssue of graph/github_map.go.
use supergraph.Common.{
  ◌≡◌, refl, ap, ◌∙◌, String, Bool, ◌&&◌, ◌||◌, not, none, some, List, [], ◌∷◌, bytes_eq, string_eq,
  ◌==◌, contains, codes, arith,
}
use supergraph.Common.Bytes.{Text}
use supergraph.Common.Rows.{any, any-map}
use supergraph.Claude.Reads.{Session, is_of_issue, any-query_sessions, query_sessions}
use supergraph.Github.Query.{IssueNode}
use supergraph.Graph.Model.{ClaudeSession, claude_session_model}
use supergraph.Graph.Unseen.{
  add_unseen, add_unseen-IsKept, has_row-add_unseen, has_row, IsKept, IsDistinct, IsDistinct-map,
}
use supergraph.Graph.Issue.{
  Sources, compute_issue_branches, session_id, on_branch, issue_sessions, claude_sessions_for_issue,
}

any-on_branch :
    (p : Session → Bool) (test : Text → Bool) (ss : List Session)
    → any p (on_branch test ss) ≡ any (λ s. test (codes s.1.git_branch) && p s) ss
unfolding on_branch
any-on_branch p test [] = refl
any-on_branch p test (s ∷ ss) = ground (arith, any-on_branch p test ss)

abbrev pub model_id : ClaudeSession → String
model_id m = m.session_id

-- A session is of the issue, or it is on a branch that is linked to the issue.
abbrev pub is_session_of : Sources → IssueNode → String → Session → Bool
is_session_of src i sid s =
    (not (codes s.1.git_branch == [])
      && contains (compute_issue_branches src i.owner i.repo i.number) (codes s.1.git_branch))
    && s.0 == sid

nothing-IsKept : IsKept session_id ([], [])
unfolding contains
nothing-IsKept = (λ k. refl, tt)

has_row-both :
    (sid : String) (xs ys : List Session)
    → has_row session_id sid (add_unseen session_id ys (add_unseen session_id xs ([], []))).1
      ≡ (has_row session_id sid ys || has_row session_id sid xs)
has_row-both sid xs ys =
    has_row-add_unseen session_id sid ys (add_unseen session_id xs ([], []))
      (add_unseen-IsKept session_id xs ([], []) nothing-IsKept)
    ∙ ap (λ b. has_row session_id sid ys || b)
        (has_row-add_unseen session_id sid xs ([], []) nothing-IsKept ∙ ground arith)

-- An issue has a claude session exactly when the session's row is on a branch that is linked to the
-- issue, or its issue number is the issue's, as far as the reads do not fail, and no session comes
-- twice.
pub claude_sessions_for_issue-exact :
    (src : Sources) (i : IssueNode)
    → ((sid : String)
        → any (λ m. model_id m == sid) (claude_sessions_for_issue src i) ≡ (
            (not (src.claude_fails none) && any (is_session_of src i sid) src.claude.sessions)
            || (not (src.claude_fails (some i.number))
                && any
                    (λ (s : Session). is_of_issue (some i.number) s.1 && s.0 == sid)
                    src.claude.sessions)))
      × IsDistinct model_id (claude_sessions_for_issue src i)
unfolding claude_sessions_for_issue claude_session_model
claude_sessions_for_issue-exact src i =
    let branches = compute_issue_branches src i.owner i.repo i.number in
    let linked =
      on_branch (λ b. not (b == []) && contains branches b)
        (query_sessions (src.claude_fails none) none none src.claude) in
    let own = issue_sessions src i.number in
    let kept = add_unseen session_id linked (add_unseen session_id own ([], [])) in
    (
      λ sid.
          any-map (λ m. model_id m == sid) claude_session_model kept.1
          ∙ has_row-both sid own linked
          ∙ rw
              (
                any-on_branch (λ s. session_id s == sid) (λ b. not (b == []) && contains branches b)
                    (query_sessions (src.claude_fails none) none none src.claude),
                any-query_sessions (is_session_of src i sid) (src.claude_fails none) none
                    src.claude,
                any-query_sessions (λ s. session_id s == sid) (src.claude_fails (some i.number))
                    (some i.number) src.claude,
              )
              refl,
      IsDistinct-map claude_session_model model_id kept.1
          (add_unseen-IsKept session_id linked (add_unseen session_id own ([], []))
            (add_unseen-IsKept session_id own ([], []) nothing-IsKept)).1,
    )
