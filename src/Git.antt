-- ===== src/Git.antt =====
-- plugins/git/: the repositories and worktrees of one box.
pub mod Worktree
pub mod Store
pub mod Reconcile
