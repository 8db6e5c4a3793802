-- ===== src/Github/Reconcile/Hooks.antt =====
-- plugins/github/reconcile.go: for which repositories a pass asks for a hook.
use supergraph.Common.{
  ℕ, ◌≡◌, refl, ◌∙◌, inl, inr, true, Option, none, some, List, [], ◌∷◌, bytes_eq, All, Bool-cases,
}
use supergraph.Common.Bytes.{Text, cut}
use supergraph.Common.Int.{ℤ}
use supergraph.Common.Json.{Fields}
use supergraph.Github.Plugin.{Plugin}
use supergraph.Github.Store.{hook, full_name}
use supergraph.Github.Executor.{NodeResult, extract_keys}
use supergraph.Github.Template.{NamedOp}
use supergraph.Github.Reconcile.{
  Reconciler, World, Tally, names_of, since_key, hook_allowed, hook_put, hook_missing, ensure_hook,
  set_cursor, stored, pulled, pulled_since, since_reconcile, reconcile_repo, reconcile_repos,
  revalidate, revalidated, reconcile_once, discover_repos,
}

-- Each repository that a hook was requested for is on the list.
abbrev pub IsAllowed : List Text → List (Text × Text) → Type 0
IsAllowed allowed posted = All (λ (r : Text × Text). hook_allowed allowed r.0 r.1 ≡ true) posted

hook_put_posted :
    (w : World) (owner repo : Text) (s : Reconciler) (x : Option ℤ)
    → (hook_put w owner repo s x).posted ≡ s.posted
hook_put_posted w owner repo s none = refl
hook_put_posted w owner repo s (some id) =
    elim (Bool-cases (w.put_hook_fails (full_name owner repo))) [
      | inl e ↦ rw e refl
      | inr e ↦ rw e refl
    ]

hook_missing-IsAllowed :
    (w : World) (owner repo : Text) (s : Reconciler) (x : Option ℤ)
    → IsAllowed w.hook_repos s.posted
    → IsAllowed w.hook_repos (hook_missing w owner repo s x).posted
hook_missing-IsAllowed w owner repo s (some id) h = h
hook_missing-IsAllowed w owner repo s none h =
    elim (Bool-cases (hook_allowed w.hook_repos owner repo)) [
      | inl e ↦ rw e (
          rw
            (hook_put_posted w owner repo (record s { posted = (owner, repo) ∷ s.posted })
              (w.create_hook owner repo))
            (e, h))
      | inr e ↦ rw e h
    ]

set_cursor_posted :
    (w : World) (name value : Text) (s : Reconciler) → (set_cursor w name value s).posted ≡ s.posted
unfolding set_cursor
set_cursor_posted w name value s = elim (Bool-cases (w.put_cursor_fails name)) [
  | inl e ↦ rw e refl
  | inr e ↦ rw e refl
]

stored_posted : (s : Reconciler) (x : Plugin × List NodeResult) → (stored s x).posted ≡ s.posted
stored_posted s (p, nodes) = refl

pulled_posted :
    (w : World) (op : NamedOp) (owner repo : Text) (s : Reconciler) (x : Option Fields)
    → (pulled w op owner repo s x).posted ≡ s.posted
pulled_posted w op owner repo s none = refl
pulled_posted w op owner repo s (some object) =
    let x = extract_keys w.context op.keys (names_of owner repo) object s.plugin in
    set_cursor_posted w (since_key owner repo) (w.print_time w.context.now) (stored s x)
    ∙ stored_posted s x

since_posted :
    (w : World) (owner repo : Text) (s : Reconciler)
    → (since_reconcile w owner repo s).posted ≡ s.posted
unfolding since_reconcile
since_posted w owner repo s = go w.open_issues
  where
    go : (x : Option NamedOp) → (pulled_since w x owner repo s).posted ≡ s.posted
    go none = refl
    go (some op) = pulled_posted w op owner repo s _

reconcile_repo-IsAllowed :
    (w : World) (x : Option (Text × Text)) (s : Reconciler)
    → IsAllowed w.hook_repos s.posted
    → IsAllowed w.hook_repos (reconcile_repo w x s).posted
reconcile_repo-IsAllowed w none s h = h
reconcile_repo-IsAllowed w (some (owner, repo)) s h =
    rw (since_posted w owner repo (ensure_hook w owner repo s)) (
      unfold ensure_hook in
      hook_missing-IsAllowed w owner repo s (hook owner repo s.plugin.tables) h)

reconcile_repos-IsAllowed :
    (w : World) (repos : List Text) (s : Reconciler)
    → IsAllowed w.hook_repos s.posted
    → IsAllowed w.hook_repos (reconcile_repos w repos s).posted
unfolding reconcile_repos
reconcile_repos-IsAllowed w [] s h = h
reconcile_repos-IsAllowed w (full ∷ repos) s h =
    reconcile_repos-IsAllowed w repos (reconcile_repo w (cut b'/' full) s)
      (reconcile_repo-IsAllowed w (cut b'/' full) s h)

revalidated_posted :
    (w : World) (s : Reconciler) (x : Plugin × Tally) → (revalidated w s x).posted ≡ s.posted
revalidated_posted w s (p, t) = refl

-- Whatever repositories GitHub lists and whatever fails, a reconcile pass asks for hooks only for
-- repositories on the configured list, so for none where the list is empty.
pub reconcile_once-IsAllowed :
    (w : World) (fuel : ℕ) (s : Reconciler)
    → IsAllowed w.hook_repos s.posted
    → IsAllowed w.hook_repos (reconcile_once w fuel s).posted
unfolding reconcile_once
reconcile_once-IsAllowed w fuel s h =
    let after = reconcile_repos w (discover_repos w.repos_page fuel 1) s in
    rw
      (
        set_cursor_posted w _ _ (revalidated w after (revalidate w after.plugin)),
        revalidated_posted w after (revalidate w after.plugin),
      )
      (reconcile_repos-IsAllowed w (discover_repos w.repos_page fuel 1) s h)
