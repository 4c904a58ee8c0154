-- ===== src/Api.antt =====
-- internal/api: the handlers over the store.
pub mod Errors
pub mod Handler
pub mod Accounts
pub mod Transfers
pub mod Paging
pub mod Steps
pub mod Owners
pub mod Refusals
pub mod Limits
pub mod Cookie
pub mod Tokens
pub mod Login
pub mod Users
pub mod Notifications
pub mod Origin
pub mod Stream
pub mod Routes
pub mod Spa
pub mod Meta
pub mod Validator
