-- ===== src/Limits.antt =====
-- internal/platform/ratelimit/memory.go: the fixed-window limiter.
pub mod Memory
pub mod Windows
mod Tests
