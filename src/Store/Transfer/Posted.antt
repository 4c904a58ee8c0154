-- ===== src/Store/Transfer/Posted.antt =====
-- internal/db/transfer_tx.go: the statements that move the money, followed step by step.
use simplebank.Currency.{max_safe_minor_units}
use simplebank.Errors.{ok, classify_error}
use simplebank.Prelude.{
  pos, ◌+ℤ◌, ◌≤ℤ◌, neg64, ◌≡◌, false, some, List, ◌∷◌, find?, exists, update_where, arith,
}
use simplebank.Sqlc.Accounts.{add_account_balance, account_id_is, add_balance}
use simplebank.Sqlc.Effects.{
  create_entry-EntryCreated, create_transfer-TransferCreated, add_account_balance-BalanceAdded,
}
use simplebank.Sqlc.Entries.{create_entry, entry_row}
use simplebank.Sqlc.Models.{Account, Entry, Transfer, Db, Pg}
use simplebank.Sqlc.Transfers.{create_transfer, transfer_row, source_key_is}
use simplebank.Sqlc.Tx.{step-eq-ok}
use simplebank.Store.Transfer.{
  map_balance_error, transfer_params, from_entry_params, to_entry_params, TransferTxParams,
  TransferTxResult, move_money,
}

abbrev pub new_transfer : Pg → TransferTxParams → Transfer
new_transfer pg arg = transfer_row (pg.uuidv7 0) pg.now (transfer_params arg)

abbrev pub sent_entry : Pg → TransferTxParams → Entry
sent_entry pg arg = entry_row (pg.uuidv7 1) pg.now (from_entry_params arg)

abbrev pub received_entry : Pg → TransferTxParams → Entry
received_entry pg arg = entry_row (pg.uuidv7 2) pg.now (to_entry_params arg)

-- The balances after the move.
abbrev pub moved_accounts : TransferTxParams → List Account → List Account
moved_accounts arg accounts =
    update_where (account_id_is arg.to_account_id) (add_balance arg.amount)
      (update_where (account_id_is arg.from_account_id) (add_balance (neg64 arg.amount)) accounts)

abbrev pub moved : Pg → TransferTxParams → Db → Db
moved pg arg db = record db {
  accounts = moved_accounts arg db.accounts;
  entries = received_entry pg arg ∷ sent_entry pg arg ∷ db.entries;
  transfers = new_transfer pg arg ∷ db.transfers;
}

pub record MoneyMoved (pg : Pg) (arg : TransferTxParams) (accounts : List Account)
    (transfers : List Transfer) (r : TransferTxResult) : Type 0 where
  pub transfer : r.transfer ≡ new_transfer pg arg
  pub from_entry : r.from_entry ≡ sent_entry pg arg
  pub to_entry : r.to_entry ≡ received_entry pg arg
  pub positive : pos 1 ≤ℤ arg.amount
  pub safe : arg.amount ≤ℤ max_safe_minor_units
  pub key_new : exists (source_key_is arg.from_account_id arg.idempotency_key) transfers ≡ false
  pub from_before : Account
  pub from_found : find? (account_id_is arg.from_account_id) accounts ≡ some from_before
  pub from_account : r.from_account ≡ add_balance (neg64 arg.amount) from_before
  pub from_covered : pos 0 ≤ℤ from_before.balance +ℤ neg64 arg.amount
  pub to_before : Account
  pub to_found :
      find?
        (account_id_is arg.to_account_id)
        (update_where (account_id_is arg.from_account_id) (add_balance (neg64 arg.amount)) accounts)
      ≡ some to_before
  pub to_account : r.to_account ≡ add_balance arg.amount to_before
  pub to_safe : to_before.balance +ℤ arg.amount ≤ℤ max_safe_minor_units

pub move_money-MoneyMoved :
    (pg : Pg) (arg : TransferTxParams) (db : Db) {r : TransferTxResult} {db' : Db}
    → move_money pg arg db ≡ ok (r, db')
    → MoneyMoved pg arg db.accounts db.transfers r × (db' ≡ moved pg arg db)
unfolding move_money
move_money-MoneyMoved pg arg db h =
    let (t, db1, e1, h1) =
      step-eq-ok classify_error (create_transfer (pg.uuidv7 0) pg.now (transfer_params arg)) _ h in
    let (fe, db2, e2, h2) =
      step-eq-ok classify_error (create_entry (pg.uuidv7 1) pg.now (from_entry_params arg)) _ h1 in
    let (te, db3, e3, h3) =
      step-eq-ok classify_error (create_entry (pg.uuidv7 2) pg.now (to_entry_params arg)) _ h2 in
    let (fa, db4, e4, h4) =
      step-eq-ok map_balance_error (add_account_balance arg.from_account_id (neg64 arg.amount)) _
        h3 in
    let (ta, db5, e5, h5) =
      step-eq-ok map_balance_error (add_account_balance arg.to_account_id arg.amount) _ h4 in
    let x1 = create_transfer-TransferCreated (pg.uuidv7 0) pg.now (transfer_params arg) db e1 in
    let x2 = create_entry-EntryCreated (pg.uuidv7 1) pg.now (from_entry_params arg) db1 e2 in
    let x3 = create_entry-EntryCreated (pg.uuidv7 2) pg.now (to_entry_params arg) db2 e3 in
    let x4 = add_account_balance-BalanceAdded arg.from_account_id (neg64 arg.amount) db3 e4 in
    let x5 = add_account_balance-BalanceAdded arg.to_account_id arg.amount db4 e5 in
    (
      record {
        transfer = ground arith;
        from_entry = ground arith;
        to_entry = ground arith;
        positive = x1.positive;
        safe = x1.safe;
        key_new = x1.key_new;
        from_before = x4.before;
        from_found = ground arith;
        from_account = ground arith;
        from_covered = x4.nonnegative;
        to_before = x5.before;
        to_found = ground arith;
        to_account = ground arith;
        to_safe = x5.safe;
      },
      ground arith,
    )
