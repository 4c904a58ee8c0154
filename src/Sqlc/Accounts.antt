-- ===== src/Sqlc/Accounts.antt =====
-- internal/db/sqlc/accounts.sql.go, with the constraints of the table accounts.
use simplebank.Currency.{max_safe_minor_units}
use simplebank.Errors.{ok, no_rows, pg_error, refuse_if, or_err, ◌>>=◌, ◌>>◌}
use simplebank.Prelude.{
  ℕ, ◌-◌, ◌^◌, ℤ, pos, negsuc, ◌+ℤ◌, ltb_ℤ, leb_ℤ, ltb, String, Bool, not, ◌&&◌, ◌||◌, List, ◌∷◌,
  ◌==◌, str_eq, find?, exists, select, update_where, order_by, take, drop,
}
use simplebank.Sqlc.Models.{Account, User}
use simplebank.Sqlc.Tx.{Tx}

pub record CreateAccountParams : Type 0 where
  pub owner : String
  pub balance : ℤ
  pub currency : String

abbrev pub account_id_is : ℕ → Account → Bool
account_id_is id a = a.id == id

abbrev pub owner_currency_is : String → String → Account → Bool
owner_currency_is owner currency a = str_eq a.owner owner && str_eq a.currency currency

abbrev pub username_is : String → User → Bool
username_is username u = str_eq u.username username

abbrev pub account_row : ℕ → ℕ → CreateAccountParams → Account
account_row id now p = record {
  id = id;
  owner = p.owner;
  balance = p.balance;
  currency = p.currency;
  created_at = now;
}

-- INSERT INTO accounts: the checks on the row, the unique keys, then the foreign key.
unfoldable pub create_account : ℕ → ℕ → CreateAccountParams → Tx Account
create_account id now p db = do
  refuse_if (ltb_ℤ max_safe_minor_units p.balance)
      (pg_error "23514" "accounts_balance_javascript_safe")
  refuse_if (ltb_ℤ p.balance (pos 0)) (pg_error "23514" "accounts_balance_nonnegative")
  refuse_if (exists (account_id_is id) db.accounts) (pg_error "23505" "accounts_pkey")
  refuse_if (exists (owner_currency_is p.owner p.currency) db.accounts)
      (pg_error "23505" "accounts_owner_currency_key")
  refuse_if (not (exists (username_is p.owner) db.users)) (pg_error "23503" "accounts_owner_fkey")
  ok (account_row id now p, record db { accounts = account_row id now p ∷ db.accounts })

unfoldable pub get_account : ℕ → Tx Account
get_account id db = do row ← or_err (find? (account_id_is id) db.accounts) no_rows; ok (row, db)

-- FOR NO KEY UPDATE: the row is locked until the transaction ends.
unfoldable pub get_account_for_update : ℕ → Tx Account
get_account_for_update id db = do
  row ← or_err (find? (account_id_is id) db.accounts) no_rows
  ok (row, record db { locks = id ∷ db.locks })

-- ORDER BY id LIMIT $2 OFFSET $3
unfoldable pub list_accounts : String → ℕ → ℕ → Tx (List Account)
list_accounts owner limit offset db = ok (
  take limit (
      drop offset
        (order_by (λ a b. ltb a.id b.id) (select (λ a. str_eq a.owner owner) db.accounts))),
  db,
)

-- A bigint sum that leaves the range of bigint is an error of its own.
abbrev pub out_of_bigint : ℤ → Bool
out_of_bigint a = ltb_ℤ a (negsuc (2 ^ 63 - 1)) || ltb_ℤ (pos (2 ^ 63 - 1)) a

abbrev pub add_balance : ℤ → Account → Account
add_balance amount a = record a { balance = a.balance +ℤ amount }

-- UPDATE accounts SET balance = balance + $1, guarded by the range of the new balance.
unfoldable pub add_account_balance : ℕ → ℤ → Tx Account
add_account_balance id amount db = do
  row ← or_err (find? (account_id_is id) db.accounts) no_rows
  refuse_if (out_of_bigint (row.balance +ℤ amount)) (pg_error "22003" "")
  refuse_if
      (not (
        leb_ℤ (pos 0) (row.balance +ℤ amount)
        && leb_ℤ (row.balance +ℤ amount) max_safe_minor_units))
      no_rows
  ok (
    add_balance amount row,
    record db { accounts = update_where (account_id_is id) (add_balance amount) db.accounts },
  )
