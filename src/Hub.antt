-- ===== src/Hub.antt =====
-- internal/ws/hub.go: the registry of live websocket clients.
pub mod State
pub mod Ops
pub mod Devices
pub mod Invariant
pub mod Runs
pub mod Safety
pub mod Presence
pub mod Sends
mod Tests
