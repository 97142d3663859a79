-- ===== src/State.antt =====
-- The durable state of the bridge (bridge/internal/state/).
pub mod Grants
pub mod Snapshot
pub mod Disk
pub mod Store
pub mod Bind
