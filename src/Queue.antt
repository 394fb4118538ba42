-- ===== src/Queue.antt =====
-- internal/platform/queue: background jobs with retries.
pub mod Jobs
pub mod Steps
pub mod Keys
pub mod Logs
pub mod Kept
pub mod Attempts
pub mod Equal
pub mod Order
mod Tests
