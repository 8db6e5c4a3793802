-- ===== src/Graph.antt =====
-- graph/: what the queries answer from the plugins, and the joins between them.
pub mod Model
pub mod Unseen
pub mod Issue
pub mod Worktree
