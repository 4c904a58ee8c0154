-- ===== src/Sqlc.antt =====
-- internal/db/sqlc: the tables and the statements on them.
pub mod Models
pub mod Tx
pub mod Accounts
pub mod Entries
pub mod Transfers
pub mod Notifications
pub mod Sessions
pub mod Users
pub mod VerifyEmails
pub mod Effects
pub mod Accepts
