-- ===== src/Store/Transfer/LockOrder.antt =====
-- internal/db/transfer_tx.go: the order of the row locks in `lockAccounts`.
use simplebank.Store.Transfer.Locking.{lock_accounts_found}
use simplebank.Errors.{ok}
use simplebank.Sqlc.Accounts.{account_id_is}
use simplebank.Sqlc.Models.{Account, Db}
use simplebank.Prelude.{false, true, ltb, arith, ◌∷◌, ◌<◌, some, ◌≡◌, find?, ℕ}
use simplebank.Store.Transfer.{lock_accounts}

-- Two transfers between the same two stored accounts, one in each direction, lock the rows in the
-- same order, the smaller id first.
pub opposite_transfers_lock_alike :
    (a b : ℕ) (db : Db) {from to : Account}
    → find? (account_id_is a) db.accounts ≡ some from
    → find? (account_id_is b) db.accounts ≡ some to
    → a < b
    → (lock_accounts a b db ≡ ok ((from, to), record db { locks = b ∷ a ∷ db.locks }))
      × (lock_accounts b a db ≡ ok ((to, from), record db { locks = b ∷ a ∷ db.locks }))
opposite_transfers_lock_alike a b db {from} {to} f t h =
    let up : ltb a b ≡ true = ground arith in
    let down : ltb b a ≡ false = ground arith in
    (ground (arith, lock_accounts_found a b db f t), ground (arith, lock_accounts_found b a db t f))
