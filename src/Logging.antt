-- ===== src/Logging.antt =====
-- common/log: scopes, their configuration, and the text of a time.
pub mod Levels
pub mod Scopes
pub mod Config
pub mod Dates
