-- ===== src/Settings.antt =====
-- The launcher's settings as an .env file spells them (launcher/internal/settings).
pub mod Codec
pub mod ReadBack
