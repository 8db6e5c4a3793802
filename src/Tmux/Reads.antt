-- ===== src/Tmux/Reads.antt =====
-- The reads of plugins/tmux/store.go, and plugins/tmux/resolver.go. A row of a table stands under its
-- key, from which its host is read. `fails` says that the driver returns an error.
use supergraph.Common.{
  ℕ, ◌≡◌, Bool, true, false, ◌&&◌, ◌||◌, not, Option, none, some, List, [], ◌∷◌, ◌++◌, bytes_eq,
  ◌==◌, if◌then◌else◌, is_none, map, select, or_else, bytes_eqb, refl, ◌∙◌, arith,
}
use supergraph.Common.Bytes.{Text}
use supergraph.Common.Rows.{order_rows, any, any-append, any-map, any-order_rows, any-select}
use supergraph.Tmux.Keys.{split_host}
use supergraph.Tmux.Store.{PaneRow, SessionRow, Timed, Tables}

abbrev host_in : Option (Text × Text) → Text
host_in none = []
host_in (some (_, host)) = host

-- The host that splitHost finds, and "" where it returns an error.
unfoldable pub host_of_key : Text → Text
host_of_key key = host_in (split_host key)

abbrev pub scan_pane : Text × Timed PaneRow → Timed PaneRow
scan_pane (k, r) = record r { row = record r.row { key = k; host_id = host_of_key k } }

abbrev pub scan_session : Text × Timed SessionRow → Timed SessionRow
scan_session (k, r) = record r { row = record r.row { key = k; host_id = host_of_key k } }

abbrev pub is_on : Text → Text → Bool
is_on host at = host == [] || at == host

unfoldable pub scan_sessions : Bool → Text → Tables → Option (List (Timed SessionRow))
scan_sessions fails host t =
    if fails
    then none
    else some (
        select (λ r. is_on host r.row.host_id)
          (map scan_session (order_rows (λ r. r.0) t.tmux_sessions)))

unfoldable pub scan_panes : Bool → Text → Tables → Option (List (Timed PaneRow))
scan_panes fails host t =
    if fails
    then none
    else some (
        select (λ r. is_on host r.row.host_id) (map scan_pane (order_rows (λ r. r.0) t.tmux_panes)))

-- A pane for each session of its name that is on the branch.
abbrev pub joins : Text → PaneRow → SessionRow → Bool
joins branch p s = p.session == s.name && s.branch == branch

unfoldable pub once_for_each :
    Text → Text × Timed PaneRow → List (Text × Timed SessionRow) → List (Text × Timed PaneRow)
once_for_each branch p [] = []
once_for_each branch p ((_, s) ∷ m) =
    let rest = once_for_each branch p m in if joins branch p.1.row s.row then p ∷ rest else rest

unfoldable pub joined_panes :
    Text
    → List (Text × Timed SessionRow)
    → List (Text × Timed PaneRow)
    → List (Text × Timed PaneRow)
joined_panes branch ss [] = []
joined_panes branch ss (p ∷ m) = once_for_each branch p ss ++ joined_panes branch ss m

unfoldable pub panes_for_branch : Bool → Text → Tables → Option (List (Timed PaneRow))
panes_for_branch fails branch t =
    if fails
    then none
    else some
        (map scan_pane (order_rows (λ r. r.0) (joined_panes branch t.tmux_sessions t.tmux_panes)))

pub record SlotRow : Type 0 where
  pub host_id : Text
  pub kind : Text
  pub pane_key : Text
  pub free : Bool
  pub stale_since : Option ℕ

abbrev pub slot_of : Text → Timed PaneRow → SlotRow
slot_of kind r = record {
  host_id = r.row.host_id;
  kind = kind;
  pane_key = r.row.key;
  free = r.row.free && is_none r.stale_since;
  stale_since = r.stale_since;
}

unfoldable pub slots_of : Text → Bool → List (Timed PaneRow) → List SlotRow
slots_of kind free_only [] = []
slots_of kind free_only (r ∷ rs) =
    let rest = slots_of kind free_only rs in
    if free_only && not (slot_of kind r).free then rest else slot_of kind r ∷ rest

abbrev slots_in : Text → Bool → Option (List (Timed PaneRow)) → Option (List SlotRow)
slots_in kind free_only none = none
slots_in kind free_only (some rs) = some (slots_of kind free_only rs)

unfoldable pub slots : Bool → Text → Text → Bool → Tables → Option (List SlotRow)
slots fails kind host free_only t = slots_in kind free_only (scan_panes fails host t)

-- Whether some row passes, in terms of the table.
pub any-scan_sessions :
    (p : Timed SessionRow → Bool) (fails : Bool) (t : Tables)
    → any p (or_else (scan_sessions fails [] t) [])
      ≡ (not fails && any (λ r. p (scan_session r)) t.tmux_sessions)
unfolding scan_sessions bytes_eqb
any-scan_sessions p true t = refl
any-scan_sessions p false t =
    any-select p (λ r. true) (map scan_session (order_rows (λ r. r.0) t.tmux_sessions))
    ∙ any-map p scan_session (order_rows (λ r. r.0) t.tmux_sessions)
    ∙ any-order_rows (λ r. r.0) (λ r. p (scan_session r)) t.tmux_sessions

any-once_for_each :
    (q : Text × Timed PaneRow → Bool) (branch : Text) (p : Text × Timed PaneRow)
    (ss : List (Text × Timed SessionRow))
    → any q (once_for_each branch p ss) ≡ any (λ s. joins branch p.1.row s.1.row && q p) ss
unfolding once_for_each
any-once_for_each q branch p [] = refl
any-once_for_each q branch p ((k, s) ∷ ss) = ground (arith, any-once_for_each q branch p ss)

any-joined_panes :
    (q : Text × Timed PaneRow → Bool) (branch : Text) (ss : List (Text × Timed SessionRow))
    (ps : List (Text × Timed PaneRow))
    → any q (joined_panes branch ss ps)
      ≡ any (λ p. any (λ s. joins branch p.1.row s.1.row && q p) ss) ps
unfolding joined_panes
any-joined_panes q branch ss [] = refl
any-joined_panes q branch ss (p ∷ ps) =
    any-append q (once_for_each branch p ss) (joined_panes branch ss ps)
    ∙ ground (arith, any-once_for_each q branch p ss, any-joined_panes q branch ss ps)

-- A pane of a branch is one whose session's name is that of a session on the branch.
pub any-panes_for_branch :
    (q : Timed PaneRow → Bool) (fails : Bool) (branch : Text) (t : Tables)
    → any q (or_else (panes_for_branch fails branch t) []) ≡ (
        not fails
        && any
            (λ p. any (λ s. joins branch p.1.row s.1.row && q (scan_pane p)) t.tmux_sessions)
            t.tmux_panes)
unfolding panes_for_branch
any-panes_for_branch q true branch t = refl
any-panes_for_branch q false branch t =
    let rows = joined_panes branch t.tmux_sessions t.tmux_panes in
    any-map q scan_pane (order_rows (λ r. r.0) rows)
    ∙ any-order_rows (λ r. r.0) (λ r. q (scan_pane r)) rows
    ∙ any-joined_panes (λ r. q (scan_pane r)) branch t.tmux_sessions t.tmux_panes
