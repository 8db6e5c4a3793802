-- ===== src/Core.antt =====
-- core/: what every plugin is given.
pub mod Envelope
pub mod Config
pub mod Health
pub mod Bus
pub mod Store
pub mod Registry
pub mod Supervisor
