-- ===== src/Github.antt =====
-- plugins/github/: the cache of GitHub's objects.
pub mod Names
pub mod Keys
pub mod Events
pub mod Pattern
pub mod Store
pub mod Query
pub mod Plugin
pub mod Webhook
pub mod Proxy
pub mod Template
pub mod Executor
pub mod Reconcile
pub mod Ingest
