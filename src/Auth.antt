-- ===== src/Auth.antt =====
-- internal/auth: accounts, emailed codes, sign-in and sessions.
pub mod Model
pub mod Codes
pub mod Sessions
pub mod Accounts
pub mod Google
pub mod Change
pub mod Guesses
pub mod Rotation
pub mod Chains
pub mod Squat
pub mod Reset
pub mod Rows
pub mod Runs
pub mod Chained
pub mod SignIn
pub mod SignUp
pub mod ChangeRows
pub mod Deleted
pub mod GoogleRows
pub mod Writes
pub mod Address
pub mod Verified
mod Tests
