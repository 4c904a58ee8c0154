-- ===== src/Store/Transfer.antt =====
-- internal/db/transfer_tx.go: `TransferTx`, the atomic and idempotent money transfer.
pub mod Posted
pub mod Locking
pub mod Outcome
pub mod Cases
pub mod LockOrder
pub mod Interleaved
use simplebank.Currency.{max_safe_minor_units}
use simplebank.Errors.{
  Error, Result, ok, err, classify_error, is_record_not_found, is_unique_violation,
  insufficient_balance, balance_limit_exceeded, currency_mismatch, daily_limit_exceeded,
  idempotency_conflict,
}
use simplebank.Prelude.{
  ℕ, ℤ, pos, ltb, ltb_ℤ, eqb_ℤ, sub64, neg64, String, Bool, not, ◌||◌, Option, none, some, ◌==◌,
  str_eq, if◌then◌else◌,
}
use simplebank.Sqlc.Accounts.{get_account, get_account_for_update, add_account_balance}
use simplebank.Sqlc.Entries.{CreateEntryParams, create_entry}
use simplebank.Sqlc.Models.{Account, Entry, Transfer, Db, Pg}
use simplebank.Sqlc.Notifications.{create_notification, publish_notification}
use simplebank.Sqlc.Transfers.{
  CreateTransferParams, create_transfer, get_transfer_by_source_and_idempotency_key,
  sum_outgoing_transfers_since,
}
use simplebank.Sqlc.Tx.{optional, lift, Tx, pure, fail_if, map_error, ◌>>=◌, ◌>>◌}
use simplebank.Store.Exec.{exec_tx, query}

pub record TransferTxParams : Type 0 where
  pub from_account_id : ℕ
  pub to_account_id : ℕ
  pub amount : ℤ
  pub currency : String
  pub idempotency_key : ℕ
  pub daily_limit : ℤ

pub record TransferTxResult : Type 0 where
  pub transfer : Transfer
  pub from_account : Account
  pub to_account : Account
  pub from_entry : Entry
  pub to_entry : Entry

-- Go's zero value, which a replay returns for the entries that it does not read.
abbrev pub zero_entry : Entry
zero_entry = record { id = 0; account_id = 0; amount = pos 0; created_at = 0 }

-- The smaller id is locked first, whichever role it plays.
unfoldable pub lock_accounts : ℕ → ℕ → Tx (Account × Account)
lock_accounts from_id to_id =
    if ltb from_id to_id
    then (do
      from ← map_error classify_error (get_account_for_update from_id)
      to ← map_error classify_error (get_account_for_update to_id)
      pure (from, to))
    else (do
      to ← map_error classify_error (get_account_for_update to_id)
      from ← map_error classify_error (get_account_for_update from_id)
      pure (from, to))

-- The request is the one that the stored transfer answered: its accounts, amount and currency.
abbrev pub replay_conflicts : Transfer → TransferTxParams → Account → Account → Bool
replay_conflicts existing arg from to =
    not (existing.from_account_id == arg.from_account_id)
    || not (existing.to_account_id == arg.to_account_id)
    || not (eqb_ℤ existing.amount arg.amount)
    || not (str_eq from.currency arg.currency)
    || not (str_eq to.currency arg.currency)

unfoldable pub transfer_replay :
    Transfer → TransferTxParams → Account → Account → Result TransferTxResult
transfer_replay existing arg from to =
    if replay_conflicts existing arg from to
    then err idempotency_conflict
    else ok (record {
      transfer = existing;
      from_account = from;
      to_account = to;
      from_entry = zero_entry;
      to_entry = zero_entry;
    })

-- The accounts are read outside every transaction.
unfoldable pub replay_transfer : Transfer → TransferTxParams → Db → Result TransferTxResult
unfolding transfer_replay
replay_transfer existing arg db = elim (query (get_account existing.from_account_id) db) [
  | err e ↦ err (classify_error e)
  | ok from ↦ elim (query (get_account existing.to_account_id) db) [
    | err e ↦ err (classify_error e)
    | ok to ↦ transfer_replay existing arg from to
  ]
]

-- A guard that fails updates no row, which means that the balance does not suffice.
unfoldable pub map_balance_error : Error → Error
map_balance_error e =
    if is_record_not_found (classify_error e) then insufficient_balance else classify_error e

unfoldable pub check_daily_limit : ℕ → TransferTxParams → Tx (Unit {0})
check_daily_limit clock arg =
    if ltb_ℤ (pos 0) arg.daily_limit
    then (do
      spent ← map_error classify_error (sum_outgoing_transfers_since clock arg.from_account_id)
      fail_if (ltb_ℤ arg.daily_limit arg.amount || ltb_ℤ (sub64 arg.daily_limit arg.amount) spent)
          daily_limit_exceeded)
    else pure tt

-- The currency, the destination's ceiling and the daily limit, against the locked rows.
unfoldable pub check_limits : ℕ → TransferTxParams → Account → Account → Tx (Unit {0})
unfolding check_daily_limit
check_limits clock arg from to = do
  fail_if (not (str_eq from.currency arg.currency) || not (str_eq to.currency arg.currency))
      currency_mismatch
  fail_if
      (ltb_ℤ max_safe_minor_units arg.amount
        || ltb_ℤ (sub64 max_safe_minor_units arg.amount) to.balance)
      balance_limit_exceeded
  check_daily_limit clock arg

abbrev pub transfer_params : TransferTxParams → CreateTransferParams
transfer_params arg = record {
  from_account_id = arg.from_account_id;
  to_account_id = arg.to_account_id;
  amount = arg.amount;
  idempotency_key = arg.idempotency_key;
}

abbrev pub from_entry_params : TransferTxParams → CreateEntryParams
from_entry_params arg = record { account_id = arg.from_account_id; amount = neg64 arg.amount }

abbrev pub to_entry_params : TransferTxParams → CreateEntryParams
to_entry_params arg = record { account_id = arg.to_account_id; amount = arg.amount }

-- The transfer, its two entries and the two balances.
unfoldable pub move_money : Pg → TransferTxParams → Tx TransferTxResult
unfolding map_balance_error
move_money pg arg = do
  transfer ← map_error classify_error (create_transfer (pg.uuidv7 0) pg.now (transfer_params arg))
  from_entry ← map_error classify_error (create_entry (pg.uuidv7 1) pg.now (from_entry_params arg))
  to_entry ← map_error classify_error (create_entry (pg.uuidv7 2) pg.now (to_entry_params arg))
  from ← map_error map_balance_error (add_account_balance arg.from_account_id (neg64 arg.amount))
  to ← map_error map_balance_error (add_account_balance arg.to_account_id arg.amount)
  pure (record {
    transfer = transfer;
    from_account = from;
    to_account = to;
    from_entry = from_entry;
    to_entry = to_entry;
  })

-- A notification for one of the parties, with its NOTIFY.
unfoldable pub notify_party : ℕ → ℕ → String → ℕ → ℕ → Tx (Unit {0})
notify_party id now direction transfer_id account_id = do
  n ← map_error classify_error (
      create_notification id now
        (record { direction = direction; transfer_id = transfer_id; account_id = account_id }))
  map_error classify_error (publish_notification n.id n.owner)

-- What the transaction does under the locks when the key is new.
unfoldable pub post_transfer : Pg → TransferTxParams → Account → Account → Tx TransferTxResult
unfolding check_limits move_money notify_party
post_transfer pg arg from to = do
  check_limits pg.clock arg from to
  r ← move_money pg arg
  notify_party (pg.uuidv7 3) pg.now "sent" r.transfer.id r.from_account.id
  notify_party (pg.uuidv7 4) pg.now "received" r.transfer.id r.to_account.id
  pure r

-- The lookup that is repeated under the locks: a winner with the same key is replayed.
unfoldable pub replay_or_post :
    Pg → TransferTxParams → Account × Account → Option Transfer → Tx TransferTxResult
unfolding post_transfer transfer_replay
replay_or_post pg arg (from, to) (some existing) = lift (transfer_replay existing arg from to)
replay_or_post pg arg (from, to) none = post_transfer pg arg from to

-- The function that `TransferTx` hands to `execTx`.
unfoldable pub transfer_body : Pg → TransferTxParams → Tx TransferTxResult
unfolding lock_accounts replay_or_post
transfer_body pg arg = do
  accounts ← lock_accounts arg.from_account_id arg.to_account_id
  found ←
      optional (get_transfer_by_source_and_idempotency_key arg.from_account_id arg.idempotency_key)
  replay_or_post pg arg accounts found

abbrev pub find_existing : TransferTxParams → Db → Result Transfer
find_existing arg =
    query (get_transfer_by_source_and_idempotency_key arg.from_account_id arg.idempotency_key)

-- A unique violation is the mark of a winner with the same key, which is replayed.
unfoldable pub resolve_violation :
    TransferTxParams → Result TransferTxResult × Db → Result TransferTxResult × Db
unfolding replay_transfer
resolve_violation arg (ok r, db) = (ok r, db)
resolve_violation arg (err e, db) =
    if is_unique_violation e
    then (
      elim (find_existing arg db) [
        | ok existing ↦ replay_transfer existing arg db
        | err e' ↦ err (classify_error e')
      ],
      db,
    )
    else (err e, db)

unfoldable pub transfer_tx : Pg → TransferTxParams → Db → Result TransferTxResult × Db
unfolding transfer_body resolve_violation replay_transfer
transfer_tx pg arg db = elim (find_existing arg db) [
  | ok existing ↦ (replay_transfer existing arg db, db)
  | err e ↦
      if is_record_not_found (classify_error e)
      then resolve_violation arg (exec_tx (transfer_body pg arg) db)
      else (err (classify_error e), db)
]
