-- ===== src/Gamedata.antt =====
-- The tables of gamedata/ and every id that is derived from them.
pub mod Kinds
pub mod Tables
pub mod Validate
pub mod Ids
pub mod Locations
pub mod Items
pub mod Community
pub mod Game
