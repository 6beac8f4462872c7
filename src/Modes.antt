-- ===== src/Modes.antt =====
-- User modes, channel modes and member prefixes (irc.go, upstream.go).
pub mod Prefixes
pub mod User
pub mod Channel
