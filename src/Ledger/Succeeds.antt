-- ===== src/Ledger/Succeeds.antt =====
-- internal/db/transfer_tx.go: calls under a new key that pass the limits.
use simplebank.Store.Exec.{exec_tx-err, exec_tx-ok}
use simplebank.Store.Transfer.Cases.{lookup_again-eq, lookup_again, first_call}
use simplebank.Store.Transfer.Locking.{lock_accounts_found, with_locks}
use simplebank.Sqlc.Tx.{>>=-ok}
use simplebank.Errors.{Result, insufficient_balance, err, ok}
use simplebank.Ledger.Posting.{paid, posts_both, posts_nothing}
use simplebank.Ledger.Payments.{Admitted}
use simplebank.Sqlc.Models.{Account, Db, Pg}
use simplebank.Store.Transfer.{
  lock_accounts, replay_or_post, resolve_violation, transfer_body, post_transfer, TransferTxResult,
  TransferTxParams, transfer_tx,
}
use simplebank.Prelude.{◌∙◌, ap, ◌≡◌, ◌≤ℤ◌, ◌<ℤ◌}

-- Under the locks a request is still the first one.
body_posts :
    (pg : Pg) (arg : TransferTxParams) (db : Db) (from to : Account)
    → Admitted pg arg db from to
    → transfer_body pg arg db
      ≡ post_transfer pg arg from to (with_locks arg.from_account_id arg.to_account_id db)
unfolding transfer_body replay_or_post
body_posts pg arg db from to a =
    >>=-ok (lock_accounts arg.from_account_id arg.to_account_id) _
      (lock_accounts_found arg.from_account_id arg.to_account_id db a.from_found a.to_found)
    ∙ >>=-ok (lookup_again arg) _ (
        lookup_again-eq arg (with_locks arg.from_account_id arg.to_account_id db)
        ∙ ap (λ x. ok (x, with_locks arg.from_account_id arg.to_account_id db)) a.new)

locked-Admitted :
    (pg : Pg) (arg : TransferTxParams) (db : Db) (from to : Account)
    → Admitted pg arg db from to
    → Admitted pg arg (with_locks arg.from_account_id arg.to_account_id db) from to
locked-Admitted pg arg db from to a = record {
  new = a.new;
  distinct = a.distinct;
  positive = a.positive;
  safe = a.safe;
  from_found = a.from_found;
  to_found = a.to_found;
  from_range = a.from_range;
  to_range = a.to_range;
  from_owner = a.from_owner;
  to_owner = a.to_owner;
  limits = a.limits;
  ids = record {
    transfer = a.ids.transfer;
    from_entry = a.ids.from_entry;
    to_entry = a.ids.to_entry;
    entries_apart = a.ids.entries_apart;
    sent = a.ids.sent;
    received = a.ids.received;
    notifications_apart = a.ids.notifications_apart;
    sent_about = a.ids.sent_about;
    received_about = a.ids.received_about;
  };
}

-- A first request between two accounts of one currency that passes the limits, for an amount that
-- the source account holds, succeeds when the generated ids are not in use: it answers with the
-- new transfer, the two entries and the two accounts as they then are.
pub transfer_tx_succeeds :
    (pg : Pg) (arg : TransferTxParams) (db : Db) (from to : Account)
    → Admitted pg arg db from to
    → arg.amount ≤ℤ from.balance
    → (transfer_tx pg arg db).0 ≡ ok (paid pg arg from to)
unfolding resolve_violation
transfer_tx_succeeds pg arg db from to a covered =
    ap (λ (x : Result TransferTxResult × Db). x.0)
      (first_call pg arg db a.new
        ∙ ap (resolve_violation arg) (
            exec_tx-ok (transfer_body pg arg) (
              body_posts pg arg db from to a
              ∙ posts_both pg arg (with_locks arg.from_account_id arg.to_account_id db) from to
                  (locked-Admitted pg arg db from to a) covered)))

-- A first request between two accounts of one currency that passes the limits, for more than the
-- source account holds, is refused for insufficient balance when the generated ids are not in use,
-- and changes nothing.
pub transfer_tx_insufficient :
    (pg : Pg) (arg : TransferTxParams) (db : Db) (from to : Account)
    → Admitted pg arg db from to
    → from.balance <ℤ arg.amount
    → transfer_tx pg arg db ≡ (err insufficient_balance, db)
unfolding resolve_violation
transfer_tx_insufficient pg arg db from to a short =
    first_call pg arg db a.new
    ∙ ap (resolve_violation arg) (
        exec_tx-err (transfer_body pg arg) (
          body_posts pg arg db from to a
          ∙ posts_nothing pg arg (with_locks arg.from_account_id arg.to_account_id db) from to
              (locked-Admitted pg arg db from to a) short))
