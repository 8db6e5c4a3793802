-- ===== src/Tmux/Snapshot/Down.antt =====
-- plugins/tmux/snapshot.go: a poll that fails, and the snapshots that are emitted.
use mathlib.Core.Option
use supergraph.Common.{
  ℕ, suc, ◌+◌, ◌≡◌, refl, ◌∙◌, inl, inr, ◌⊎◌, Bool, true, false, Option, none, some, List, [], ◌∷◌,
  bytes_eq, length, contains, Bool-cases, arith,
}
use supergraph.Common.Dict.{lookup, lookup-update_all}
use supergraph.Common.Bytes.{Text}
use supergraph.Tmux.Store.{
  PaneRow, SessionRow, Tables, Driver, upsert_session, upsert_pane, mark_pane_stale, mark_all_stale,
  stamp, live_pane_rows,
}
use supergraph.Tmux.Snapshot.{
  Plugin, TmuxEvent, pane_updated, pane_closed, snapshot, reconcile, store_sessions, store_panes,
  close_panes, then_tables, tell_pane, is_news, and_then, told, polled, unreachable, keys_of,
  parse_panes, parse_sessions,
}

unreachable_lem :
    (d : Driver) (now : ℕ) (p : Plugin) (k : Text)
    → d.mark_panes_fails ≡ false
    → d.mark_sessions_fails ≡ false
    → let out = unreachable d now p in
      (out.1 ≡ false)
      × (out.0.emitted ≡ p.emitted)
      × (lookup k out.0.tables.tmux_panes ≡ Option.map (stamp now) (lookup k p.tables.tmux_panes))
      × (lookup k out.0.tables.tmux_sessions
          ≡ Option.map (stamp now) (lookup k p.tables.tmux_sessions))
unfolding mark_all_stale
unreachable_lem d now p k ok ok' =
    rw (ok, ok')
      (
        refl,
        refl,
        lookup-update_all (λ _. stamp now) k p.tables.tmux_panes,
        lookup-update_all (λ _. stamp now) k p.tables.tmux_sessions,
      )

-- A poll in which one of the two commands fails, and both marks succeed, is an error, emits nothing,
-- and stamps every pane and every session that carried no stale mark; those that did keep it.
failed_poll_marks_all :
    (d : Driver) (host : Text) (idle : List Text) (branch_of : Text → Text) (now : ℕ)
    (sess_out pane_out : Option Text) (p : Plugin) (k : Text)
    → (sess_out ≡ none) ⊎ (pane_out ≡ none)
    → d.mark_panes_fails ≡ false
    → d.mark_sessions_fails ≡ false
    → let out = reconcile d host idle branch_of now sess_out pane_out p in
      (out.1 ≡ false)
      × (out.0.emitted ≡ p.emitted)
      × (lookup k out.0.tables.tmux_panes ≡ Option.map (stamp now) (lookup k p.tables.tmux_panes))
      × (lookup k out.0.tables.tmux_sessions
          ≡ Option.map (stamp now) (lookup k p.tables.tmux_sessions))
unfolding reconcile
failed_poll_marks_all d host idle branch_of now none pane_out p k h ok ok' =
    unreachable_lem d now p k ok ok'
failed_poll_marks_all d host idle branch_of now (some s) none p k h ok ok' =
    unreachable_lem d now p k ok ok'
failed_poll_marks_all d host idle branch_of now (some s) (some q) p k h ok ok' =
    absurd (ground arith)

-- How many of the events are snapshots.
unfoldable pub snapshots : List TmuxEvent → ℕ
snapshots [] = 0
snapshots (snapshot _ _ ∷ es) = suc (snapshots es)
snapshots (pane_updated _ ∷ es) = snapshots es
snapshots (pane_closed _ ∷ es) = snapshots es

abbrev count : Plugin → ℕ
count p = snapshots p.emitted

count-then_tables :
    (p : Plugin) (o : Option Tables) (go : Plugin → Plugin × Bool)
    → ((q : Plugin) → count (go q).0 ≡ count q)
    → count (then_tables p o go).0 ≡ count p
count-then_tables p none go h = refl
count-then_tables p (some t) go h = h (record p { tables = t })

count-store_sessions :
    (d : Driver) (now : ℕ) (ss : List SessionRow) (p : Plugin)
    → count (store_sessions d now ss p).0 ≡ count p
unfolding store_sessions
count-store_sessions d now [] p = refl
count-store_sessions d now (s ∷ ss) p =
    count-then_tables p (upsert_session d s now p.tables) (store_sessions d now ss)
      (count-store_sessions d now ss)

count-tell_pane :
    (prev : List (Text × PaneRow)) (r : PaneRow) (p : Plugin) → count (tell_pane prev r p) ≡ count p
unfolding snapshots
count-tell_pane prev r p = elim (Bool-cases (is_news r (lookup r.key prev))) [
  | inl e ↦ rw e refl
  | inr e ↦ rw e refl
]

count-store_panes :
    (d : Driver) (now : ℕ) (prev : List (Text × PaneRow)) (rs : List PaneRow) (p : Plugin)
    → count (store_panes d now prev rs p).0 ≡ count p
unfolding store_panes
count-store_panes d now prev [] p = refl
count-store_panes d now prev (r ∷ rs) p =
    count-then_tables p (upsert_pane d r now p.tables)
      (λ q. store_panes d now prev rs (tell_pane prev r q))
      (λ q. count-store_panes d now prev rs (tell_pane prev r q) ∙ count-tell_pane prev r q)

count-close_panes :
    (d : Driver) (now : ℕ) (seen : List Text) (prev : List (Text × PaneRow)) (p : Plugin)
    → count (close_panes d now seen prev p).0 ≡ count p
unfolding close_panes snapshots
count-close_panes d now seen [] p = refl
count-close_panes d now seen ((k, r) ∷ prev) p = elim (Bool-cases (contains seen k)) [
  | inl e ↦ rw e (count-close_panes d now seen prev p)
  | inr e ↦ rw e (
      count-then_tables p (mark_pane_stale d k now p.tables)
        (λ q. close_panes d now seen prev (record q { emitted = pane_closed k ∷ q.emitted }))
        (λ q. count-close_panes d now seen prev (record q { emitted = pane_closed k ∷ q.emitted })))
]

-- One snapshot more for a poll that ends well, none for one that does not.
abbrev pub one_if : Bool → ℕ
one_if true = 1
one_if false = 0

count-and_then :
    (r : Plugin × Bool) (go : Plugin → Plugin × Bool) (n : ℕ)
    → count r.0 ≡ n
    → ((q : Plugin) → count q ≡ n → count (go q).0 ≡ one_if (go q).1 + n)
    → count (and_then r go).0 ≡ one_if (and_then r go).1 + n
count-and_then (p, true) go n h k = k p h
count-and_then (p, false) go n h k = omega (arith, h)

count-told :
    (host : Text) (m : ℕ) (n : ℕ) (p : Plugin)
    → count p ≡ n
    → count (told host m p).0 ≡ one_if (told host m p).1 + n
unfolding snapshots
count-told host m n p h = omega (arith, h)

count-polled :
    (d : Driver) (host : Text) (idle : List Text) (branch_of : Text → Text) (now : ℕ) (so po : Text)
    (p : Plugin) (o : Option (List (Text × PaneRow)))
    → count (polled d host idle branch_of now so po p o).0
      ≡ one_if (polled d host idle branch_of now so po p o).1 + count p
count-polled d host idle branch_of now so po p none = omega arith
count-polled d host idle branch_of now so po p (some prev) =
    let panes = parse_panes host po idle in
    count-and_then (store_sessions d now (parse_sessions host so branch_of) p)
      (λ q.
        and_then (store_panes d now prev panes q)
          (λ r. and_then (close_panes d now (keys_of panes) prev r) (told host (length panes))))
      (count p) (count-store_sessions d now (parse_sessions host so branch_of) p)
      (λ q h.
        count-and_then (store_panes d now prev panes q)
          (λ r. and_then (close_panes d now (keys_of panes) prev r) (told host (length panes)))
          (count p) (count-store_panes d now prev panes q ∙ h)
          (λ r h.
            count-and_then (close_panes d now (keys_of panes) prev r) (told host (length panes))
              (count p) (count-close_panes d now (keys_of panes) prev r ∙ h)
              (count-told host (length panes) (count p))))

-- Whatever tmux prints and whichever statements fail, a poll that ends well emits exactly one
-- snapshot and a poll that ends in an error emits none.
pub snapshots-reconcile :
    (d : Driver) (host : Text) (idle : List Text) (branch_of : Text → Text) (now : ℕ)
    (sess_out pane_out : Option Text) (p : Plugin)
    → let out = reconcile d host idle branch_of now sess_out pane_out p in
      snapshots out.0.emitted ≡ one_if out.1 + snapshots p.emitted
unfolding reconcile
snapshots-reconcile d host idle branch_of now none pane_out p = omega arith
snapshots-reconcile d host idle branch_of now (some s) none p = omega arith
snapshots-reconcile d host idle branch_of now (some s) (some q) p =
    count-polled d host idle branch_of now s q p (live_pane_rows d p.tables)
