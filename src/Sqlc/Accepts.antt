-- ===== src/Sqlc/Accepts.antt =====
-- internal/db/sqlc: the statements of a transfer under conditions on their arguments.
use simplebank.Errors.{no_rows, err, ok}
use simplebank.Currency.{max_safe_minor_units}
use simplebank.Sqlc.Models.{Transfer, Account, Db}
use simplebank.Sqlc.Notifications.{
  notification_row, about_is, notification_id_is, direction_fits, CreateNotificationParams,
  create_notification,
}
use simplebank.Prelude.{
  arith, update_where, ◌∷◌, ◌<ℤ◌, true, ◌+ℤ◌, false, some, ◌≡◌, exists, ◌-◌, ◌^◌, ◌≤ℤ◌, find?,
  negsuc, pos, ℤ, ℕ,
}
use simplebank.Sqlc.Entries.{entry_row, entry_id_is, CreateEntryParams, create_entry}
use simplebank.Sqlc.Transfers.{
  transfer_row, source_key_is, transfer_id_is, CreateTransferParams, create_transfer,
}
use simplebank.Sqlc.Accounts.{username_is, add_balance, account_id_is, add_account_balance}

pub create_transfer_accepts :
    (id now : ℕ) (p : CreateTransferParams) (db : Db)
    → pos 1 ≤ℤ p.amount
    → p.amount ≤ℤ max_safe_minor_units
    → exists (transfer_id_is id) db.transfers ≡ false
    → exists (source_key_is p.from_account_id p.idempotency_key) db.transfers ≡ false
    → exists (account_id_is p.from_account_id) db.accounts ≡ true
    → exists (account_id_is p.to_account_id) db.accounts ≡ true
    → create_transfer id now p db
      ≡ ok (transfer_row id now p, record db { transfers = transfer_row id now p ∷ db.transfers })
unfolding create_transfer
create_transfer_accepts id now p db a b c d e f = ground arith

pub create_entry_accepts :
    (id now : ℕ) (p : CreateEntryParams) (db : Db)
    → negsuc (2 ^ 53 - 2) ≤ℤ p.amount
    → p.amount ≤ℤ max_safe_minor_units
    → exists (entry_id_is id) db.entries ≡ false
    → exists (account_id_is p.account_id) db.accounts ≡ true
    → create_entry id now p db
      ≡ ok (entry_row id now p, record db { entries = entry_row id now p ∷ db.entries })
unfolding create_entry
create_entry_accepts id now p db a b c d = ground arith

pub add_account_balance_accepts :
    (id : ℕ) (amount : ℤ) (db : Db) (a : Account)
    → find? (account_id_is id) db.accounts ≡ some a
    → pos 0 ≤ℤ a.balance +ℤ amount
    → a.balance +ℤ amount ≤ℤ max_safe_minor_units
    → add_account_balance id amount db
      ≡ ok (
        add_balance amount a,
        record db { accounts = update_where (account_id_is id) (add_balance amount) db.accounts },
      )
unfolding add_account_balance
add_account_balance_accepts id amount db a f p q = ground arith

-- A sum below zero that is still a bigint updates no row.
pub add_account_balance_refuses :
    (id : ℕ) (amount : ℤ) (db : Db) (a : Account)
    → find? (account_id_is id) db.accounts ≡ some a
    → a.balance +ℤ amount <ℤ pos 0
    → negsuc (2 ^ 63 - 1) ≤ℤ a.balance +ℤ amount
    → add_account_balance id amount db ≡ err no_rows
unfolding add_account_balance
add_account_balance_refuses id amount db a f p q = ground arith

pub create_notification_accepts :
    (id now : ℕ) (p : CreateNotificationParams) (db : Db) (a : Account) (t : Transfer)
    → find? (account_id_is p.account_id) db.accounts ≡ some a
    → find? (transfer_id_is p.transfer_id) db.transfers ≡ some t
    → direction_fits p.direction a t ≡ true
    → pos 1 ≤ℤ t.amount
    → t.amount ≤ℤ max_safe_minor_units
    → pos 0 ≤ℤ a.balance
    → a.balance ≤ℤ max_safe_minor_units
    → exists (notification_id_is id) db.notifications ≡ false
    → exists (about_is t.id a.id) db.notifications ≡ false
    → exists (username_is a.owner) db.users ≡ true
    → create_notification id now p db
      ≡ ok (
        notification_row id now p.direction a t,
        record db { notifications = notification_row id now p.direction a t ∷ db.notifications },
      )
unfolding create_notification
create_notification_accepts id now p db a t f g d a1 a2 b1 b2 i j u = ground arith
