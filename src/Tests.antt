-- ===== src/Tests.antt =====
-- A small game and a run of it, on which the theorems are tried.
mod Game
mod Store
mod Server
mod Session
mod Feed
mod Rcon
mod Settings
mod Availability
mod Fakeroom
mod Client
mod Lines
mod Served
mod Modifiers
