-- ===== src/Fakeroom.antt =====
-- The multiworld of one for play-tests (fakeroom/fakeroom.go): what it holds, and what it answers.
pub mod Tickets
pub mod Start
pub mod Order
pub mod Missions
pub mod Reply
pub mod Room
pub mod Rewards
pub mod Step
pub mod Accepted
pub mod Modifiers
