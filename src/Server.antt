-- ===== src/Server.antt =====
-- The side of the bridge that the plugin talks to (bridge/internal/httpapi/server.go).
pub mod Request
pub mod Observe
pub mod Objective
pub mod Tally
pub mod Recorded
pub mod Counted
pub mod Answered
pub mod Refused
pub mod Missions
pub mod Poll
