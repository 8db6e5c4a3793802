-- ===== src/Graph/Worktree/Best.antt =====
-- Which session and which pull request a worktree is joined with.
use supergraph.Common.{
  ◌≡◌, refl, ◌⊎◌, inl, inr, Bool, true, false, not, Option, none, some, List, bytes_eq, arith,
  Bool-cases,
}
use mathlib.Core.Path.{subst}
use supergraph.Common.Bytes.{Text}
use supergraph.Common.Order.{lex_leb, lex_leb_refl, lex_leb_total, lex_leb_trans}
use supergraph.Common.Choose.{choose, choose-IsBest, IsBest, IsOrder, Among}
use supergraph.Github.Query.{PrNode, cached_prs}
use supergraph.Github.Store.{Driver}
use supergraph.Git.Store.{WorktreeNode}
use supergraph.Graph.Issue.{Sources}
use supergraph.Graph.Worktree.{
  Session, is_at, is_before, modelled, tmux_session_for_worktree, has_head, is_newer, direct_if,
  pull_request_for_worktree, split_repo_slug, worktree_pull_request, direct_pr,
}
use supergraph.IssueKey.{from_branch}

not-true : (b : Bool) → not b ≡ true → b ≡ false
not-true b h = ground (arith, h)

not-false : (b : Bool) → not b ≡ false → b ≡ true
not-false b h = ground (arith, h)

is_before-IsOrder : (path : Text) → IsOrder (is_at path) is_before
is_before-IsOrder path = (
  λ x. rw (lex_leb_refl x.row.name) refl,
  λ x b y up low.
      let xb = lex_leb_total b.row.name x.row.name (not-true (lex_leb b.row.name x.row.name) up) in
      let by = not-false (lex_leb b.row.name y.row.name) low in
      rw (lex_leb_trans x.row.name b.row.name y.row.name xb by) refl,
)

is_newer-IsOrder : (branch : Text) → IsOrder (has_head branch) is_newer
is_newer-IsOrder branch = (λ x. ground arith, λ x b y up low. ground (arith, up, low))

-- The session of a worktree is one on its path with the least name, and there is none only if no
-- session is on the path; paths are compared as filepath.Clean leaves them.
pub tmux_session_for_worktree-least :
    (sessions : List Session) (path : Text)
    → (r : Option Session) × (tmux_session_for_worktree sessions path ≡ modelled r)
      × IsBest (is_at path) is_before (λ s. ⊥ ⊎ Among s sessions) r
unfolding tmux_session_for_worktree
tmux_session_for_worktree-least sessions path = (
  choose (is_at path) is_before none sessions,
  refl,
  choose-IsBest (is_at path) is_before (is_before-IsOrder path) (λ _. ⊥) none sessions
      (λ x e. absurd e),
)

some-inj : (a b : PrNode) → some a ≡ some b → a ≡ b
some-inj a b e = cc

direct_if-IsBest :
    (branch : Text) (direct : Option PrNode)
    → IsBest (has_head branch) is_newer (λ pr. direct ≡ some pr) (direct_if branch direct)
direct_if-IsBest branch none = λ x e. absurd (cc)
direct_if-IsBest branch (some pr) = elim (Bool-cases (has_head branch pr)) [
  | inl t ↦ rw t (
    refl,
    t,
    λ x e h. subst (λ z. is_newer z pr ≡ false) (some-inj pr x e) ((is_newer-IsOrder branch).0 pr),
  )
  | inr t ↦ rw t (λ x e. subst (λ z. has_head branch z ≡ false) (some-inj pr x e) t)
]

-- The pull request of a worktree on a branch is one that has the branch as its head and the greatest
-- number, among the one that the branch's issue number names and the cached ones of the repository;
-- there is none only if none of these has the branch as its head.
pub worktree_pull_request-newest :
    (src : Sources) (d : Driver) (w : WorktreeNode) (branch owner repo : Text)
    → w.branch ≡ some branch
    → split_repo_slug w.repo_slug ≡ some (owner, repo)
    → IsBest
        (has_head branch)
        is_newer
        (λ pr.
          (direct_pr src d owner repo (from_branch branch) ≡ some pr)
          ⊎ Among pr (cached_prs src.decoding src.prs_fail owner repo src.github))
        (worktree_pull_request src d w)
unfolding worktree_pull_request pull_request_for_worktree
worktree_pull_request-newest src d w branch owner repo on slug =
    let direct = direct_pr src d owner repo (from_branch branch) in
    rw (on, slug)
      (choose-IsBest (has_head branch) is_newer (is_newer-IsOrder branch) (λ pr. direct ≡ some pr)
        (direct_if branch direct) (cached_prs src.decoding src.prs_fail owner repo src.github)
        (direct_if-IsBest branch direct))
