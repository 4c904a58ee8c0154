-- ===== src/Store.antt =====
-- internal/db: the store's transactions.
pub mod Exec
pub mod Account
pub mod User
pub mod Session
pub mod Notification
pub mod Transfer
