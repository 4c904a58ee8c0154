-- ===== src/Ledger.antt =====
-- The double-entry ledger that the tables accounts, entries and transfers make up, and what
-- `CreateAccountTx` and `TransferTx` do to it.
pub mod Book
pub mod Accounts
pub mod Entries
pub mod Transfers
pub mod Invariant
pub mod Moves
pub mod Opening
pub mod DailyLimit
pub mod Payments
pub mod Posting
pub mod Succeeds
pub mod SelfTransfer
