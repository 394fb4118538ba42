-- ===== src/Chat.antt =====
-- internal/chat: messages, reactions, read markers and history.
pub mod Model
pub mod Tables
pub mod Authorize
pub mod Emoji
pub mod Send
pub mod Change
pub mod Forward
pub mod Rows
pub mod Calls
pub mod Sides
pub mod Invariant
pub mod Secrecy
pub mod History
pub mod Paging
pub mod Shown
pub mod Hiding
pub mod Changes
pub mod Deleting
pub mod Forever
pub mod Receipts
pub mod Markers
pub mod Audience
pub mod Absent
pub mod Dedupe
pub mod Retries
mod Tests
