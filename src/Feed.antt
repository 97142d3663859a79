-- ===== src/Feed.antt =====
-- What the multiworld says to the game (bridge/internal/deathlink and bridge/internal/chat): two
-- bounded rings, each read from a sequence number on.
pub mod Ring
pub mod DeathLink
pub mod Chat
