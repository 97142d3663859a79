-- ===== src/Feed/Chat.antt =====
-- The log of the multiworld's conversation (bridge/internal/chat/log.go). A text is the list of its
-- bytes, as Go's `len` and slices of a string count them. `strings.TrimSpace` is the argument `trim`.
pub mod Wrap
pub mod Fits
pub mod Log
