-- ===== src/Presence.antt =====
-- internal/presence/presence.go: who sees whom online.
pub mod Views
pub mod Privacy
pub mod Changed
pub mod Told
pub mod Late
mod Tests
