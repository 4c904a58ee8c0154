-- ===== src/Store/Account.antt =====
-- internal/db/account_tx.go: `CreateAccountTx`.
use simplebank.Sqlc.Entries.{create_entry}
use simplebank.Store.Exec.{exec_tx}
use simplebank.Errors.{classify_error, Result}
use simplebank.Sqlc.Accounts.{create_account, CreateAccountParams}
use simplebank.Prelude.{pos, eqb_ℤ, if◌then◌else◌, ℤ}
use simplebank.Sqlc.Models.{Db, Account, Pg}
use simplebank.Sqlc.Tx.{pure, map_error, Tx, ◌>>=◌, ◌>>◌}

-- An account that opens with money gets a matching opening entry.
unfoldable pub opening_entry : Pg → ℤ → Account → Tx (Unit {0})
opening_entry pg balance account = if eqb_ℤ balance (pos 0) then pure tt else (do
  map_error classify_error
      (create_entry (pg.uuidv7 1) pg.now (record { account_id = account.id; amount = balance }))
  pure tt)

unfoldable pub create_account_body : Pg → CreateAccountParams → Tx Account
unfolding opening_entry
create_account_body pg arg = do
  account ← map_error classify_error (create_account (pg.uuidv7 0) pg.now arg)
  opening_entry pg arg.balance account
  pure account

unfoldable pub create_account_tx : Pg → CreateAccountParams → Db → Result Account × Db
unfolding create_account_body
create_account_tx pg arg = exec_tx (create_account_body pg arg)
