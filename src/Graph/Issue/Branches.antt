-- ===== src/Graph/Issue/Branches.antt =====
-- The branches that are linked to an issue, for computeIssueBranches of graph/github_map.go.
use supergraph.Common.{
  ◌≡◌, refl, ap, ◌∙◌, Bool, true, false, ◌&&◌, ◌||◌, not, none, some, List, [], ◌∷◌, bytes_eq,
  string_eq, ◌==◌, contains, codes, arith, Bool-cases, inl, inr, or_else,
}
use mathlib.Core.Path.{subst}
use supergraph.Common.Int.{ℤ}
use supergraph.Common.Bytes.{Text}
use supergraph.Common.Rows.{any}
use supergraph.Tmux.Store as Tmux
use supergraph.Tmux.Reads.{scan_sessions, any-scan_sessions}
use supergraph.Claude.Reads.{Session, is_of_issue, query_sessions, any-query_sessions}
use supergraph.Github.Query.{PrNode, cached_prs}
use supergraph.Graph.Issue.{
  Sources, derives, links, put_if, put_sessions, put_claude, put_prs, compute_issue_branches,
}

contains-put_if :
    (t : Bool) (b : Text) (set : List Text) (a : Text)
    → contains (put_if t b set) a ≡ ((t && b == a) || contains set a)
unfolding contains
contains-put_if false b set a = refl
contains-put_if true b set a = elim (Bool-cases (contains set b)) [
  | inr new ↦ rw new (ground arith)
  | inl old ↦ rw old (elim (Bool-cases (b == a)) [
    | inr p ↦ rw p refl
    | inl p ↦ rw p (subst (λ c. contains set c ≡ true) ((bytes_eq.same_iff b a).0 p) old)
  ])
]

or_swap : (a b c : Bool) → (a || (b || c)) ≡ ((b || a) || c)
or_swap a b c = ground arith

or_false : (a b : Bool) → (a || (b || false)) ≡ (a || b)
or_false a b = ground arith

-- A loop that puts what passes into the set: one step of each of the three.
put_step :
    (rest t : Bool) (b : Text) (set : List Text) (a : Text)
    → (rest || contains (put_if t b set) a) ≡ (((t && b == a) || rest) || contains set a)
put_step rest t b set a =
    ap (λ x. rest || x) (contains-put_if t b set a) ∙ or_swap rest (t && b == a) (contains set a)

abbrev session_on : ℤ → Text → Tmux.Timed Tmux.SessionRow → Bool
session_on n a s = derives n s.row.branch && s.row.branch == a

contains-put_sessions :
    (n : ℤ) (ss : List (Tmux.Timed Tmux.SessionRow)) (set : List Text) (a : Text)
    → contains (put_sessions n ss set) a ≡ (any (session_on n a) ss || contains set a)
unfolding put_sessions
contains-put_sessions n [] set a = refl
contains-put_sessions n (s ∷ ss) set a =
    contains-put_sessions n ss (put_if (derives n s.row.branch) s.row.branch set) a
    ∙ put_step (any (session_on n a) ss) (derives n s.row.branch) s.row.branch set a

abbrev claude_on : Text → Session → Bool
claude_on a s = not (s.1.git_branch == "") && codes s.1.git_branch == a

contains-put_claude :
    (ss : List Session) (set : List Text) (a : Text)
    → contains (put_claude ss set) a ≡ (any (claude_on a) ss || contains set a)
unfolding put_claude
contains-put_claude [] set a = refl
contains-put_claude (s ∷ ss) set a =
    contains-put_claude ss (put_if (not (s.1.git_branch == "")) (codes s.1.git_branch) set) a
    ∙ put_step (any (claude_on a) ss) (not (s.1.git_branch == "")) (codes s.1.git_branch) set a

abbrev pr_on : ℤ → Text → PrNode → Bool
pr_on n a pr = links n pr && pr.head_ref_name == a

contains-put_prs :
    (n : ℤ) (prs : List PrNode) (set : List Text) (a : Text)
    → contains (put_prs n prs set) a ≡ (any (pr_on n a) prs || contains set a)
unfolding put_prs
contains-put_prs n [] set a = refl
contains-put_prs n (pr ∷ prs) set a =
    contains-put_prs n prs (put_if (links n pr) pr.head_ref_name set) a
    ∙ put_step (any (pr_on n a) prs) (links n pr) pr.head_ref_name set a

-- A branch is linked to an issue exactly when a cached pull request of the repository has it as its
-- head and links the issue, or a claude session of the issue is on it, or a tmux session is on it and
-- its name derives to the issue; a read that fails contributes nothing.
pub compute_issue_branches-exact :
    (src : Sources) (owner repo : Text) (n : ℤ) (b : Text)
    → contains (compute_issue_branches src owner repo n) b ≡ (
        any
          (λ (pr : PrNode). links n pr && pr.head_ref_name == b)
          (cached_prs src.decoding src.prs_fail owner repo src.github)
        || ((not (src.linked_claude_fails n)
              && any
                  (λ (s : Session).
                    is_of_issue (some n) s.1
                    && (not (s.1.git_branch == "") && codes s.1.git_branch == b))
                  src.claude.sessions)
            || (not src.sessions_fail
                && any
                    (λ (s : Text × Tmux.Timed Tmux.SessionRow).
                      derives n s.1.row.branch && s.1.row.branch == b)
                    src.tmux.tmux_sessions)))
unfolding compute_issue_branches contains
compute_issue_branches-exact src owner repo n b =
    let ss = or_else (scan_sessions src.sessions_fail [] src.tmux) [] in
    let cs = query_sessions (src.linked_claude_fails n) none (some n) src.claude in
    let prs = cached_prs src.decoding src.prs_fail owner repo src.github in
    contains-put_prs n prs (put_claude cs (put_sessions n ss [])) b
    ∙ ap (λ x. any (pr_on n b) prs || x)
        (contains-put_claude cs (put_sessions n ss []) b
          ∙ rw
              (
                contains-put_sessions n ss [] b,
                any-query_sessions (claude_on b) (src.linked_claude_fails n) (some n) src.claude,
                any-scan_sessions (session_on n b) src.sessions_fail src.tmux,
              )
              (or_false _ _))
