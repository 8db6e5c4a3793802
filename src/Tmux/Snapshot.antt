-- ===== src/Tmux/Snapshot.antt =====
-- plugins/tmux/snapshot.go: one poll of the server. What tmux prints is an argument, and `branch_of`,
-- which asks git, is one too. A Go map is walked in the order of its rows.
pub mod Down
use supergraph.Common.{
  ℕ, ◌≡◌, Bool, true, false, ◌&&◌, ◌||◌, not, Option, none, some, List, [], ◌∷◌, ◌++◌, codes,
  bytes_eq, bytes_eqb, ◌==◌, if◌then◌else◌, length, contains, or_else,
}
use supergraph.Common.Dict.{lookup}
use supergraph.Common.Int.{ℤ, pos}
use supergraph.Common.Bytes.{Text, trim_space}
use supergraph.Common.Decimal.{atoi, lax_atoi}
use supergraph.Common.Split.{split}
use supergraph.Tmux.Keys.{pane_key, session_key, is_idle}
use supergraph.Tmux.Store.{
  PaneRow, SessionRow, Tables, Driver, upsert_session, upsert_pane, mark_pane_stale, mark_all_stale,
  live_pane_rows,
}

unfoldable pub keep_lines : List Text → List Text
keep_lines [] = []
keep_lines (l ∷ ls) = let rest = keep_lines ls in if trim_space l == [] then rest else l ∷ rest

unfoldable pub split_lines : Text → List Text
split_lines out = keep_lines (split b'\n' out)

-- A line with fewer fields, or an index that is no int, is left out; a process id that is none
-- is what Atoi returns beside its error.
abbrev indexed :
    Text → List Text → Text → Text → Text → Text → Text → Option ℤ → Option ℤ → Option PaneRow
indexed host idle session pid cmd path active (some window) (some pane) = some (record {
  key = pane_key session window pane host;
  host_id = host;
  session = session;
  window = window;
  pane = pane;
  pid = lax_atoi pid;
  cmd = cmd;
  path = path;
  active = active == codes "1";
  free = is_idle cmd idle;
})
indexed host idle session pid cmd path active _ _ = none

abbrev pane_of : Text → List Text → List Text → Option PaneRow
pane_of host idle (session ∷ window ∷ pane ∷ pid ∷ cmd ∷ path ∷ active ∷ _) =
    indexed host idle session pid cmd path active (atoi window) (atoi pane)
pane_of host idle _ = none

abbrev cons_some : {A : Type 0} → Option A → List A → List A
cons_some none xs = xs
cons_some (some x) xs = x ∷ xs

unfoldable pub panes_of : Text → List Text → List Text → List PaneRow
panes_of host idle [] = []
panes_of host idle (l ∷ ls) = cons_some (pane_of host idle (split b'\t' l)) (panes_of host idle ls)

unfoldable pub parse_panes : Text → Text → List Text → List PaneRow
parse_panes host out idle = panes_of host idle (split_lines out)

abbrev session_of : Text → (Text → Text) → List Text → Option SessionRow
session_of host branch_of (name ∷ worktree ∷ _) = some (record {
  key = session_key name host;
  host_id = host;
  name = name;
  worktree = worktree;
  branch = branch_of worktree;
})
session_of host branch_of _ = none

unfoldable pub sessions_of : Text → (Text → Text) → List Text → List SessionRow
sessions_of host branch_of [] = []
sessions_of host branch_of (l ∷ ls) =
    cons_some (session_of host branch_of (split b'\t' l)) (sessions_of host branch_of ls)

unfoldable pub parse_sessions : Text → Text → (Text → Text) → List SessionRow
parse_sessions host out branch_of = sessions_of host branch_of (split_lines out)

unfoldable pub pane_changed : PaneRow → PaneRow → Bool
pane_changed old cur =
    (if old.free then not cur.free else cur.free)
    || not (old.cmd == cur.cmd)
    || not (old.path == cur.path)

pub data TmuxEvent : Type 0 where
  pane_updated : PaneRow → TmuxEvent
  pane_closed : Text → TmuxEvent
  snapshot : Text → ℕ → TmuxEvent

-- `emitted` is what was handed to the emit closure, the newest first.
pub record Plugin : Type 0 where
  pub tables : Tables
  pub emitted : List TmuxEvent

-- Each loop ends at its first error, with the flag false.
abbrev pub then_tables : Plugin → Option Tables → (Plugin → Plugin × Bool) → Plugin × Bool
then_tables p none go = (p, false)
then_tables p (some t) go = go (record p { tables = t })

unfoldable pub store_sessions : Driver → ℕ → List SessionRow → Plugin → Plugin × Bool
store_sessions d now [] p = (p, true)
store_sessions d now (s ∷ ss) p =
    then_tables p (upsert_session d s now p.tables) (store_sessions d now ss)

abbrev pub is_news : PaneRow → Option PaneRow → Bool
is_news cur none = true
is_news cur (some old) = pane_changed old cur

abbrev pub tell_pane : List (Text × PaneRow) → PaneRow → Plugin → Plugin
tell_pane prev r p =
    if is_news r (lookup r.key prev) then record p { emitted = pane_updated r ∷ p.emitted } else p

unfoldable pub store_panes :
    Driver → ℕ → List (Text × PaneRow) → List PaneRow → Plugin → Plugin × Bool
store_panes d now prev [] p = (p, true)
store_panes d now prev (r ∷ rs) p =
    then_tables p (upsert_pane d r now p.tables)
      (λ q. store_panes d now prev rs (tell_pane prev r q))

unfoldable pub keys_of : List PaneRow → List Text
keys_of [] = []
keys_of (r ∷ rs) = r.key ∷ keys_of rs

unfoldable pub close_panes : Driver → ℕ → List Text → List (Text × PaneRow) → Plugin → Plugin × Bool
close_panes d now seen [] p = (p, true)
close_panes d now seen ((k, _) ∷ prev) p =
    let skip = close_panes d now seen prev p in
    let close =
      then_tables p (mark_pane_stale d k now p.tables)
        (λ q. close_panes d now seen prev (record q { emitted = pane_closed k ∷ q.emitted })) in
    if contains seen k then skip else close

abbrev pub and_then : Plugin × Bool → (Plugin → Plugin × Bool) → Plugin × Bool
and_then (p, true) go = go p
and_then (p, false) go = (p, false)

abbrev pub told : Text → ℕ → Plugin → Plugin × Bool
told host count p = (record p { emitted = snapshot host count ∷ p.emitted }, true)

abbrev pub polled :
    Driver
    → Text
    → List Text
    → (Text → Text)
    → ℕ
    → Text
    → Text
    → Plugin
    → Option (List (Text × PaneRow))
    → Plugin × Bool
polled d host idle branch_of now sess_out pane_out p none = (p, false)
polled d host idle branch_of now sess_out pane_out p (some prev) =
    let panes = parse_panes host pane_out idle in
    and_then (store_sessions d now (parse_sessions host sess_out branch_of) p) (λ q.
      and_then (store_panes d now prev panes q)
        (λ r. and_then (close_panes d now (keys_of panes) prev r) (told host (length panes))))

abbrev pub unreachable : Driver → ℕ → Plugin → Plugin × Bool
unreachable d now p = (record p { tables = (mark_all_stale d now p.tables).0 }, false)

-- `none` of the two outputs is a command that failed. The second is asked for behind the first.
unfoldable pub reconcile :
    Driver
    → Text
    → List Text
    → (Text → Text)
    → ℕ
    → Option Text
    → Option Text
    → Plugin
    → Plugin × Bool
reconcile d host idle branch_of now none pane_out p = unreachable d now p
reconcile d host idle branch_of now (some sess_out) none p = unreachable d now p
reconcile d host idle branch_of now (some sess_out) (some pane_out) p =
    polled d host idle branch_of now sess_out pane_out p (live_pane_rows d p.tables)
