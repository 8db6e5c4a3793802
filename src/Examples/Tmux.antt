-- ===== src/Examples/Tmux.antt =====
-- Examples for plugins/tmux/.
use supergraph.Common.{true, false, none, [], ◌∷◌, codes, bytes_eq}
use supergraph.Common.Int.{pos}
use supergraph.Tmux.Store.{PaneRow, Driver}
use supergraph.Tmux.Snapshot.{Plugin}

abbrev row : PaneRow
row = record {
  key = codes "pane:s:0.1@h";
  host_id = codes "h";
  session = codes "s";
  window = pos 0;
  pane = pos 1;
  pid = pos 7;
  cmd = codes "vim";
  path = codes "/w";
  active = true;
  free = false;
}

abbrev plugin : Plugin
plugin = record {
  tables = record {
    tmux_sessions = [];
    tmux_panes = (row.key, record { row = row; last_seen_at = 1; stale_since = none }) ∷ [];
  };
  emitted = [];
}

abbrev sound : Driver
sound = record {
  upsert_session_fails = λ _. false;
  upsert_pane_fails = λ _. false;
  mark_pane_stale_fails = λ _. false;
  live_pane_rows_fails = false;
  mark_panes_fails = false;
  mark_sessions_fails = false;
}
