-- ===== src/Ledger/Payments.antt =====
-- internal/db/transfer_tx.go: the statements of a transfer that passes the limits.
use simplebank.Sqlc.Accepts.{
  add_account_balance_refuses, add_account_balance_accepts, create_entry_accepts,
  create_transfer_accepts,
}
use simplebank.Store.Transfer.Outcome.{LimitsPassed}
use simplebank.Ledger.Accounts.{find?-add_to_ne, add_to, InRange}
use simplebank.Errors.{insufficient_balance, err, ok, classify_error}
use simplebank.Sqlc.Notifications.{about_is, notification_id_is}
use simplebank.Sqlc.Entries.{create_entry, entry_id_is}
use simplebank.Sqlc.Tx.{step-err, step-ok, map_error, ◌>>=◌, Tx}
use simplebank.Currency.{max_safe_minor_units}
use simplebank.Sqlc.Accounts.{add_account_balance, add_balance, username_is, account_id_is}
use simplebank.Store.Transfer.Posted.{moved, sent_entry, received_entry, new_transfer}
use simplebank.Store.Transfer.Cases.{existing}
use simplebank.Sqlc.Transfers.{
  sum_outgoing_transfers_since, source_key_is, create_transfer, transfer_id_is,
}
use simplebank.Sqlc.Models.{Entry, Transfer, Account, Db, Pg}
use simplebank.Store.Transfer.{
  check_daily_limit, map_balance_error, check_limits, move_money, to_entry_params,
  from_entry_params, transfer_params, TransferTxParams,
}
use simplebank.Prelude.{
  sym, ◌<ℤ◌, sub64-eq, subst, ◌+ℤ◌, ◌∙◌, exists_of_find?-none, some, ◌==◌, arith, find?, ◌≢◌,
  exists_of_find?, neg64-eq, ◌-◌, true, int_laws, pos, none, false, ◌^◌, ◌≡◌, negsuc, neg64, exists,
  ◌-ℤ◌, ◌∷◌, ◌≤ℤ◌,
}

-- The generated ids are not in use, as the server draws them.
pub record FreshIds (pg : Pg) (arg : TransferTxParams) (db : Db) : Type 0 where
  pub transfer : exists (transfer_id_is (pg.uuidv7 0)) db.transfers ≡ false
  pub from_entry : exists (entry_id_is (pg.uuidv7 1)) db.entries ≡ false
  pub to_entry : exists (entry_id_is (pg.uuidv7 2)) db.entries ≡ false
  pub entries_apart : (pg.uuidv7 1 == pg.uuidv7 2) ≡ false
  pub sent : exists (notification_id_is (pg.uuidv7 3)) db.notifications ≡ false
  pub received : exists (notification_id_is (pg.uuidv7 4)) db.notifications ≡ false
  pub notifications_apart : (pg.uuidv7 3 == pg.uuidv7 4) ≡ false
  pub sent_about : exists (about_is (pg.uuidv7 0) arg.from_account_id) db.notifications ≡ false
  pub received_about : exists (about_is (pg.uuidv7 0) arg.to_account_id) db.notifications ≡ false

-- A first request for a safe amount between two stored accounts, which passes the checks.
pub record Admitted (pg : Pg) (arg : TransferTxParams) (db : Db) (from to : Account) : Type 0 where
  pub new : existing arg db ≡ none
  pub distinct : arg.from_account_id ≢ arg.to_account_id
  pub positive : pos 1 ≤ℤ arg.amount
  pub safe : arg.amount ≤ℤ max_safe_minor_units
  pub from_found : find? (account_id_is arg.from_account_id) db.accounts ≡ some from
  pub to_found : find? (account_id_is arg.to_account_id) db.accounts ≡ some to
  pub from_range : InRange from
  pub to_range : InRange to
  pub from_owner : exists (username_is from.owner) db.users ≡ true
  pub to_owner : exists (username_is to.owner) db.users ≡ true
  pub limits : LimitsPassed pg.clock arg from to db.transfers
  pub ids : FreshIds pg arg db

module _ (pg : Pg) (arg : TransferTxParams) (db : Db) (from to : Account)
    (a : Admitted pg arg db from to) where
  -- The state after the transfer and its entries were inserted.
  abbrev recorded : Db
  recorded = record db {
    transfers = new_transfer pg arg ∷ db.transfers;
    entries = received_entry pg arg ∷ sent_entry pg arg ∷ db.entries;
  }

  pub debit_is : neg64 arg.amount ≡ pos 0 -ℤ arg.amount
  debit_is = neg64-eq arg.amount a.positive (omega (arith, a.safe))

  debit_floor : negsuc (2 ^ 53 - 2) ≤ℤ neg64 arg.amount
  debit_floor = rw debit_is (omega (int_laws, a.safe))

  debit_ceiling : neg64 arg.amount ≤ℤ max_safe_minor_units
  debit_ceiling = rw debit_is (omega (int_laws, a.positive))

  from_there : exists (account_id_is arg.from_account_id) db.accounts ≡ true
  from_there = exists_of_find? (account_id_is arg.from_account_id) db.accounts from a.from_found

  to_there : exists (account_id_is arg.to_account_id) db.accounts ≡ true
  to_there = exists_of_find? (account_id_is arg.to_account_id) db.accounts to a.to_found

  inserts :
      {A : Type 0} (k : Transfer → Entry → Entry → Tx A)
      → (do
        t ← map_error classify_error (create_transfer (pg.uuidv7 0) pg.now (transfer_params arg))
        fe ← map_error classify_error (create_entry (pg.uuidv7 1) pg.now (from_entry_params arg))
        te ← map_error classify_error (create_entry (pg.uuidv7 2) pg.now (to_entry_params arg))
        k t fe te)
          db
        ≡ k (new_transfer pg arg) (sent_entry pg arg) (received_entry pg arg) recorded
  inserts k =
      step-ok classify_error (create_transfer (pg.uuidv7 0) pg.now (transfer_params arg)) _ (
        create_transfer_accepts (pg.uuidv7 0) pg.now (transfer_params arg) db a.positive a.safe
          a.ids.transfer
          (exists_of_find?-none (source_key_is arg.from_account_id arg.idempotency_key) db.transfers
            a.new)
          from_there to_there)
      ∙ step-ok classify_error (create_entry (pg.uuidv7 1) pg.now (from_entry_params arg)) _ (
          create_entry_accepts (pg.uuidv7 1) pg.now (from_entry_params arg)
            (record db { transfers = new_transfer pg arg ∷ db.transfers }) debit_floor debit_ceiling
            a.ids.from_entry from_there)
      ∙ step-ok classify_error (create_entry (pg.uuidv7 2) pg.now (to_entry_params arg)) _ (
          create_entry_accepts (pg.uuidv7 2) pg.now (to_entry_params arg)
            (record db {
              transfers = new_transfer pg arg ∷ db.transfers;
              entries = sent_entry pg arg ∷ db.entries;
            })
            (omega (arith, a.positive)) a.safe (ground (arith, a.ids.to_entry, a.ids.entries_apart))
            to_there)

  pub room : to.balance +ℤ arg.amount ≤ℤ max_safe_minor_units
  room =
      let plain : to.balance ≤ℤ max_safe_minor_units -ℤ arg.amount =
        subst (λ x. to.balance ≤ℤ x)
          (sub64-eq max_safe_minor_units arg.amount a.positive (omega (arith, a.safe)) (omega arith)
            (omega arith))
          a.limits.room in
      omega int_laws

  pub pays :
      arg.amount ≤ℤ from.balance
      → move_money pg arg db
        ≡ ok (
          record {
            transfer = new_transfer pg arg;
            from_account = add_balance (neg64 arg.amount) from;
            to_account = add_balance arg.amount to;
            from_entry = sent_entry pg arg;
            to_entry = received_entry pg arg;
          },
          moved pg arg db,
        )
  unfolding move_money
  pays covered =
      inserts _
      ∙ step-ok map_balance_error (add_account_balance arg.from_account_id (neg64 arg.amount)) _ (
          add_account_balance_accepts arg.from_account_id (neg64 arg.amount) recorded from
            a.from_found (rw debit_is (omega (int_laws, covered)))
            (rw debit_is (omega (int_laws, a.positive, a.from_range.safe))))
      ∙ step-ok map_balance_error (add_account_balance arg.to_account_id arg.amount) _ (
          add_account_balance_accepts arg.to_account_id arg.amount
            (record recorded {
              accounts = add_to arg.from_account_id (neg64 arg.amount) db.accounts;
            })
            to
            (find?-add_to_ne arg.to_account_id arg.from_account_id (neg64 arg.amount) db.accounts
                (λ e. a.distinct (sym e))
              ∙ a.to_found)
            (omega (int_laws, a.positive, a.to_range.nonnegative)) room)

  pub lacks : from.balance <ℤ arg.amount → move_money pg arg db ≡ err insufficient_balance
  unfolding move_money map_balance_error classify_error
  lacks short =
      inserts _
      ∙ step-err map_balance_error (add_account_balance arg.from_account_id (neg64 arg.amount)) _ (
          add_account_balance_refuses arg.from_account_id (neg64 arg.amount) recorded from
            a.from_found (rw debit_is (omega (int_laws, short)))
            (rw debit_is (omega (int_laws, a.safe, a.from_range.nonnegative))))

  pub passes : check_limits pg.clock arg from to db ≡ ok (tt, db)
  unfolding check_limits check_daily_limit sum_outgoing_transfers_since
  passes = ground (
    arith, a.limits.from_currency, a.limits.to_currency, a.limits.room, a.limits.within_limit,
    a.limits.within_day, a.safe,
  )
