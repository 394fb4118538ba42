-- ===== src/Calls.antt =====
-- internal/calls/calls.go: 1:1 voice calls. The manager's state, its operations, and proofs.
pub mod Types
pub mod Manager
pub mod Start
pub mod Ending
pub mod Accept
pub mod Devices
pub mod Dispatch
pub mod Steps
pub mod Cases
pub mod Linked
pub mod Timers
pub mod Safety
pub mod Entry
mod Tests
