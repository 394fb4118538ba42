-- ===== src/Tickets.antt =====
-- internal/ws/ticket.go: tickets that open the websocket once.
pub mod Redeem
pub mod Once
mod Tests
