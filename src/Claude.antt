-- ===== src/Claude.antt =====
-- plugins/claude/: the sessions of one box.
pub mod Reducer
pub mod Redact
pub mod Rows
pub mod Store
pub mod StateFile
pub mod Sweep
pub mod History
pub mod Reads
pub mod Hook
pub mod Transcript
pub mod Tail
