-- ===== src/Sqlc/Effects.antt =====
-- internal/db/sqlc: the statements of a transfer when they succeed.
use simplebank.Currency.{max_safe_minor_units}
use simplebank.Errors.{no_rows, err, Result, ok}
use simplebank.Prelude.{
  none, Option, List, ℕ, ℤ, pos, ◌+ℤ◌, ◌≤ℤ◌, ◌≡◌, true, false, some, ◌∷◌, find?, exists,
  update_where, arith, Option-cases, inl, inr,
}
use simplebank.Sqlc.Accounts.{
  get_account, get_account_for_update, account_id_is, add_balance, add_account_balance,
}
use simplebank.Sqlc.Entries.{CreateEntryParams, entry_row, create_entry, entry_id_is}
use simplebank.Sqlc.Models.{Account, Entry, Transfer, Notification, Db}
use simplebank.Sqlc.Notifications.{
  CreateNotificationParams, create_notification, notification_row, about_is, direction_fits,
}
use simplebank.Sqlc.Transfers.{
  get_transfer_by_source_and_idempotency_key, CreateTransferParams, transfer_row, create_transfer,
  transfer_id_is, source_key_is,
}

pub record EntryCreated (id now : ℕ) (p : CreateEntryParams) (db : Db) (e : Entry) (db' : Db)
    : Type 0 where
  pub row : e ≡ entry_row id now p
  pub state : db' ≡ record db { entries = entry_row id now p ∷ db.entries }
  pub id_new : exists (entry_id_is id) db.entries ≡ false
  pub account : exists (account_id_is p.account_id) db.accounts ≡ true

pub create_entry-EntryCreated :
    (id now : ℕ) (p : CreateEntryParams) (db : Db) {e : Entry} {db' : Db}
    → create_entry id now p db ≡ ok (e, db')
    → EntryCreated id now p db e db'
unfolding create_entry
create_entry-EntryCreated id now p db h = ground arith

pub record TransferCreated (id now : ℕ) (p : CreateTransferParams) (db : Db) (t : Transfer)
    (db' : Db) : Type 0 where
  pub row : t ≡ transfer_row id now p
  pub state : db' ≡ record db { transfers = transfer_row id now p ∷ db.transfers }
  pub positive : pos 1 ≤ℤ p.amount
  pub safe : p.amount ≤ℤ max_safe_minor_units
  pub id_new : exists (transfer_id_is id) db.transfers ≡ false
  pub key_new : exists (source_key_is p.from_account_id p.idempotency_key) db.transfers ≡ false

pub create_transfer-TransferCreated :
    (id now : ℕ) (p : CreateTransferParams) (db : Db) {t : Transfer} {db' : Db}
    → create_transfer id now p db ≡ ok (t, db')
    → TransferCreated id now p db t db'
unfolding create_transfer
create_transfer-TransferCreated id now p db h = ground arith

pub record BalanceAdded (id : ℕ) (amount : ℤ) (db : Db) (a : Account) (db' : Db) : Type 0 where
  pub before : Account
  pub found : find? (account_id_is id) db.accounts ≡ some before
  pub row : a ≡ add_balance amount before
  pub state :
      db'
      ≡ record db { accounts = update_where (account_id_is id) (add_balance amount) db.accounts }
  pub nonnegative : pos 0 ≤ℤ before.balance +ℤ amount
  pub safe : before.balance +ℤ amount ≤ℤ max_safe_minor_units

pub add_account_balance-BalanceAdded :
    (id : ℕ) (amount : ℤ) (db : Db) {a : Account} {db' : Db}
    → add_account_balance id amount db ≡ ok (a, db')
    → BalanceAdded id amount db a db'
unfolding add_account_balance
add_account_balance-BalanceAdded id amount db h =
    elim (Option-cases (find? (account_id_is id) db.accounts)) [
      | inl missing ↦ absurd (ground arith)
      | inr (before, found) ↦ record {
        before = before;
        found = found;
        row = ground arith;
        state = ground arith;
        nonnegative = ground arith;
        safe = ground arith;
      }
    ]

pub record NotificationCreated (id now : ℕ) (p : CreateNotificationParams) (accounts : List Account)
    (transfers : List Transfer) (notifications : List Notification) (n : Notification)
    : Type 0 where
  pub account : Account
  pub transfer : Transfer
  pub account_found : find? (account_id_is p.account_id) accounts ≡ some account
  pub transfer_found : find? (transfer_id_is p.transfer_id) transfers ≡ some transfer
  pub row : n ≡ notification_row id now p.direction account transfer
  pub fits : direction_fits p.direction account transfer ≡ true
  pub about_new : exists (about_is transfer.id account.id) notifications ≡ false

pub create_notification-NotificationCreated :
    (id now : ℕ) (p : CreateNotificationParams) (db : Db) {n : Notification} {db' : Db}
    → create_notification id now p db ≡ ok (n, db')
    → NotificationCreated id now p db.accounts db.transfers db.notifications n
      × (db' ≡ record db { notifications = n ∷ db.notifications })
unfolding create_notification
create_notification-NotificationCreated id now p db h =
    elim (Option-cases (find? (account_id_is p.account_id) db.accounts)) [
      | inl missing ↦ absurd (ground arith)
      | inr (a, account_found) ↦
          elim (Option-cases (find? (transfer_id_is p.transfer_id) db.transfers)) [
            | inl missing ↦ absurd (ground arith)
            | inr (t, transfer_found) ↦ (
              record {
                account = a;
                transfer = t;
                account_found = account_found;
                transfer_found = transfer_found;
                row = ground arith;
                fits = ground arith;
                about_new = ground arith;
              },
              ground arith,
            )
          ]
    ]

abbrev pub locked : ℕ → Db → Db
locked id db = record db { locks = id ∷ db.locks }

pub get_account_for_update-eq-ok :
    (id : ℕ) (db : Db) {a : Account} {db' : Db}
    → get_account_for_update id db ≡ ok (a, db')
    → (find? (account_id_is id) db.accounts ≡ some a) × (db' ≡ locked id db)
unfolding get_account_for_update
get_account_for_update-eq-ok id db h = ground arith

pub get_account_for_update_found :
    (id : ℕ) (db : Db) {a : Account}
    → find? (account_id_is id) db.accounts ≡ some a
    → get_account_for_update id db ≡ ok (a, locked id db)
unfolding get_account_for_update
get_account_for_update_found id db h = ground arith

-- What a SELECT of one row answers.
abbrev pub selected : {A : Type 0} → Option A → Db → Result (A × Db)
selected none db = err no_rows
selected (some a) db = ok (a, db)

pub get_account-eq :
    (id : ℕ) (db : Db) → get_account id db ≡ selected (find? (account_id_is id) db.accounts) db
unfolding get_account
get_account-eq id db = ground arith

pub get_transfer_by_source_and_idempotency_key-eq :
    (from key : ℕ) (db : Db)
    → get_transfer_by_source_and_idempotency_key from key db
      ≡ selected (find? (source_key_is from key) db.transfers) db
unfolding get_transfer_by_source_and_idempotency_key
get_transfer_by_source_and_idempotency_key-eq from key db = ground arith
