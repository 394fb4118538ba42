-- ===== src/Groups.antt =====
-- internal/groups: group chats, their members, roles and permissions.
pub mod Model
pub mod Rows
pub mod Repo
pub mod Tables
pub mod Service
pub mod Invariant
pub mod History
pub mod Authority
pub mod Succession
pub mod Invite
pub mod Permissions
mod Tests
