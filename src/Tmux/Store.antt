-- ===== src/Tmux/Store.antt =====
-- plugins/tmux/store.go: the rows of sessions and panes, each under its key.
use supergraph.Common.{
  ℕ, Bool, true, false, Option, none, some, List, [], ◌∷◌, bytes_eq, ◌==◌, if◌then◌else◌, is_none,
}
use supergraph.Common.Dict.{insert, update_all}
use supergraph.Common.Int.{ℤ}
use supergraph.Common.Bytes.{Text}

pub record PaneRow : Type 0 where
  pub key : Text
  pub host_id : Text
  pub session : Text
  pub window : ℤ
  pub pane : ℤ
  pub pid : ℤ
  pub cmd : Text
  pub path : Text
  pub active : Bool
  pub free : Bool

pub record SessionRow : Type 0 where
  pub key : Text
  pub host_id : Text
  pub name : Text
  pub worktree : Text
  pub branch : Text

-- A row with the two times that the store keeps of it.
pub record Timed (A : Type 0) : Type 0 where
  pub row : A
  pub last_seen_at : ℕ
  pub stale_since : Option ℕ

pub record Tables : Type 0 where
  pub tmux_sessions : List (Text × Timed SessionRow)
  pub tmux_panes : List (Text × Timed PaneRow)

-- The driver: which statements fail, by the key that each is for.
pub record Driver : Type 0 where
  pub upsert_session_fails : Text → Bool
  pub upsert_pane_fails : Text → Bool
  pub mark_pane_stale_fails : Text → Bool
  pub live_pane_rows_fails : Bool
  pub mark_panes_fails : Bool
  pub mark_sessions_fails : Bool

unfoldable pub upsert_session : Driver → SessionRow → ℕ → Tables → Option Tables
upsert_session d r now t =
    if d.upsert_session_fails r.key
    then none
    else some (record t {
      tmux_sessions =
          insert r.key (record { row = r; last_seen_at = now; stale_since = none }) t.tmux_sessions;
    })

unfoldable pub upsert_pane : Driver → PaneRow → ℕ → Tables → Option Tables
upsert_pane d r now t =
    if d.upsert_pane_fails r.key
    then none
    else some (record t {
      tmux_panes =
          insert r.key (record { row = r; last_seen_at = now; stale_since = none }) t.tmux_panes;
    })

-- WHERE stale_since IS NULL
abbrev pub stamp : {A : Type 0} → ℕ → Timed A → Timed A
stamp now r = if is_none r.stale_since then record r { stale_since = some now } else r

abbrev pub stamp_key : Text → ℕ → Text → Timed PaneRow → Timed PaneRow
stamp_key key now k r = if k == key then stamp now r else r

unfoldable pub mark_pane_stale : Driver → Text → ℕ → Tables → Option Tables
mark_pane_stale d key now t =
    if d.mark_pane_stale_fails key
    then none
    else some (record t { tmux_panes = update_all (stamp_key key now) t.tmux_panes })

-- The flag is false where a statement failed; the panes' statement comes first.
unfoldable pub mark_all_stale : Driver → ℕ → Tables → Tables × Bool
mark_all_stale d now t =
    let panes = record t { tmux_panes = update_all (λ _. stamp now) t.tmux_panes } in
    if d.mark_panes_fails
    then (t, false)
    else if d.mark_sessions_fails
    then (panes, false)
    else (record panes { tmux_sessions = update_all (λ _. stamp now) t.tmux_sessions }, true)

unfoldable pub live_rows : List (Text × Timed PaneRow) → List (Text × PaneRow)
live_rows [] = []
live_rows ((k, r) ∷ m) =
    let rest = live_rows m in if is_none r.stale_since then (k, r.row) ∷ rest else rest

unfoldable pub live_pane_rows : Driver → Tables → Option (List (Text × PaneRow))
live_pane_rows d t = if d.live_pane_rows_fails then none else some (live_rows t.tmux_panes)
