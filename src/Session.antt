-- ===== src/Session.antt =====
-- The session with the multiworld (bridge/internal/apclient): what it lets through to it, and when the
-- run is won.
pub mod Say
pub mod Pace
pub mod Goal
pub mod Names
pub mod Client
