-- ===== src/Graph/Issue/Panes.antt =====
-- The panes and the sessions of an issue, for tmuxPanesForIssue and claudeSessionsForIssue of
-- graph/github_map.go.
use supergraph.Common.{
  ◌≡◌, refl, ap, ◌∙◌, Bool, false, ◌&&◌, ◌||◌, List, [], ◌∷◌, bytes_eq, string_eq, ◌==◌, beq_sym,
  contains, arith,
}
use supergraph.Common.Bytes.{Text}
use supergraph.Common.Rows.{any, any-cong, any-swap, any-map}
use supergraph.Tmux.Store as Tmux
use supergraph.Tmux.Reads.{any-panes_for_branch, joins}
use supergraph.Github.Query.{IssueNode}
use supergraph.Graph.Model.{TmuxPane, pane_model, panes_to_model}
use supergraph.Graph.Unseen.{
  add_unseen, add_unseen-IsKept, has_row-add_unseen, has_row, IsKept, IsDistinct, IsDistinct-map,
}
use supergraph.Graph.Issue.{
  Sources, compute_issue_branches, pane_key, panes_on, panes_on_branches, tmux_panes_for_issue,
}

panes_on_branches-IsKept :
    (src : Sources) (bs : List Text) (st : List Text × List (Tmux.Timed Tmux.PaneRow))
    → IsKept pane_key st
    → IsKept pane_key (panes_on_branches src bs st)
unfolding panes_on_branches
panes_on_branches-IsKept src [] st v = v
panes_on_branches-IsKept src (b ∷ bs) st v =
    panes_on_branches-IsKept src bs (add_unseen pane_key (panes_on src b) st)
      (add_unseen-IsKept pane_key (panes_on src b) st v)

has_row-panes_on_branches :
    (src : Sources) (k : Text) (bs : List Text) (st : List Text × List (Tmux.Timed Tmux.PaneRow))
    → IsKept pane_key st
    → has_row pane_key k (panes_on_branches src bs st).1
      ≡ (any (λ b. has_row pane_key k (panes_on src b)) bs || has_row pane_key k st.1)
unfolding panes_on_branches
has_row-panes_on_branches src k [] st v = refl
has_row-panes_on_branches src k (b ∷ bs) st v =
    has_row-panes_on_branches src k bs (add_unseen pane_key (panes_on src b) st)
      (add_unseen-IsKept pane_key (panes_on src b) st v)
    ∙ ap (λ x. any (λ c. has_row pane_key k (panes_on src c)) bs || x)
        (has_row-add_unseen pane_key k (panes_on src b) st v)
    ∙ ground arith

-- The test of one branch, over all branches of a list, is the test of whether the list has it.
any-contains :
    (x y : Bool) (c : Text) (bs : List Text)
    → any (λ b. (x && c == b) && y) bs ≡ ((x && contains bs c) && y)
unfolding contains
any-contains x y c [] = ground arith
any-contains x y c (b ∷ bs) = ground (arith, any-contains x y c bs, beq_sym c b)

-- The pane stands under the key, and its session's name is that of a session on a branch of the list.
abbrev pub is_pane_of : Text → List Text → Tmux.Tables → Text × Tmux.Timed Tmux.PaneRow → Bool
is_pane_of k bs t p =
    any
      (λ (s : Text × Tmux.Timed Tmux.SessionRow).
        (p.1.row.session == s.1.row.name && contains bs s.1.row.branch) && p.0 == k)
      t.tmux_sessions

any-panes_on :
    (src : Sources) (k : Text) (bs : List Text)
    → ((b : Text) → src.panes_fail b ≡ false)
    → any (λ b. has_row pane_key k (panes_on src b)) bs
      ≡ any (is_pane_of k bs src.tmux) src.tmux.tmux_panes
any-panes_on src k bs up =
    let hit =
      λ (b : Text) (p : Text × Tmux.Timed Tmux.PaneRow) (s : Text × Tmux.Timed Tmux.SessionRow).
        joins b p.1.row s.1.row && p.0 == k in
    any-cong (λ b. has_row pane_key k (panes_on src b))
      (λ b. any (λ p. any (hit b p) src.tmux.tmux_sessions) src.tmux.tmux_panes) bs
      (λ b.
        any-panes_for_branch (λ r. pane_key r == k) (src.panes_fail b) b src.tmux ∙ rw (up b) refl)
    ∙ any-swap (λ b p. any (hit b p) src.tmux.tmux_sessions) bs src.tmux.tmux_panes
    ∙ any-cong (λ p. any (λ b. any (hit b p) src.tmux.tmux_sessions) bs) (is_pane_of k bs src.tmux)
        src.tmux.tmux_panes
        (λ p.
          any-swap (λ b s. hit b p s) bs src.tmux.tmux_sessions
          ∙ any-cong (λ s. any (λ b. hit b p s) bs)
              (λ s. (p.1.row.session == s.1.row.name && contains bs s.1.row.branch) && p.0 == k)
              src.tmux.tmux_sessions
              (λ s. any-contains (p.1.row.session == s.1.row.name) (p.0 == k) s.1.row.branch bs))

or_false : (a : Bool) → (a || false) ≡ a
or_false a = ground arith

abbrev pub model_key : TmuxPane → Text
model_key m = m.key

nothing-IsKept : IsKept pane_key ([], [])
unfolding contains
nothing-IsKept = (λ k. refl, tt)

-- Where no read of panes fails and a map is walked over all its keys, in whatever order: an issue has
-- a pane exactly when the pane's session has the name of a session on a branch that is linked to the
-- issue, and no pane comes twice.
pub tmux_panes_for_issue-exact :
    (src : Sources) (i : IssueNode)
    → ((p : Text → Bool) (bs : List Text) → any p (src.walk bs) ≡ any p bs)
    → ((b : Text) → src.panes_fail b ≡ false)
    → ((k : Text)
        → any (λ m. model_key m == k) (tmux_panes_for_issue src i)
          ≡ any
              (is_pane_of k (compute_issue_branches src i.owner i.repo i.number) src.tmux)
              src.tmux.tmux_panes)
      × IsDistinct model_key (tmux_panes_for_issue src i)
unfolding tmux_panes_for_issue panes_to_model
tmux_panes_for_issue-exact src i walked up =
    let set = compute_issue_branches src i.owner i.repo i.number in
    let rows = panes_on_branches src (src.walk set) ([], []) in
    (
      λ k.
          any-map (λ m. model_key m == k) pane_model rows.1
          ∙ has_row-panes_on_branches src k (src.walk set) ([], []) nothing-IsKept
          ∙ or_false (any (λ b. has_row pane_key k (panes_on src b)) (src.walk set))
          ∙ walked (λ b. has_row pane_key k (panes_on src b)) set
          ∙ any-panes_on src k set up,
      IsDistinct-map pane_model model_key rows.1
          (panes_on_branches-IsKept src (src.walk set) ([], []) nothing-IsKept).1,
    )
