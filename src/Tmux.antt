-- ===== src/Tmux.antt =====
-- plugins/tmux/: the panes and sessions of one box.
pub mod Keys
pub mod Store
pub mod Reads
pub mod Snapshot
