-- ===== src/Friends.antt =====
-- internal/friends: friend requests, friendships and blocks.
pub mod Model
pub mod Rows
pub mod Repo
pub mod Service
pub mod Pairs
pub mod Invariant
pub mod History
pub mod Outcomes
pub mod Race
pub mod Names
mod Tests
