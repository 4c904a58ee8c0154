-- ===== src/Ledger/Posting.antt =====
-- internal/db/transfer_tx.go: what a transfer posts once it passes the limits.
use simplebank.Sqlc.Accepts.{create_notification_accepts}
use simplebank.Ledger.Accounts.{find?-add_to_self, find?-add_to_ne}
use simplebank.Store.Transfer.Outcome.{posted}
use simplebank.Sqlc.Tx.{>>=-err, >>=-ok, step-ok}
use simplebank.Sqlc.Transfers.{transfer_id_is}
use simplebank.Store.Transfer.Posted.{
  moved, received_entry, sent_entry, moved_accounts, new_transfer,
}
use simplebank.Sqlc.Accounts.{account_id_is, add_balance}
use simplebank.Errors.{insufficient_balance, err, classify_error, ok}
use simplebank.Ledger.Payments.{lacks, room, debit_is, pays, passes, Admitted}
use simplebank.Sqlc.Notifications.{
  about_is, notification_row, create_notification, CreateNotificationParams, publish_notification,
}
use simplebank.Sqlc.Models.{Notification, Account, Db, Pg}
use simplebank.Store.Transfer.{
  move_money, check_limits, post_transfer, TransferTxResult, TransferTxParams, notify_party,
}
use simplebank.Prelude.{
  false, int_laws, arith, exists, sym, ◌∙◌, ==_refl, ap, some, find?_holds, neg64, ==_iff, find?,
  ◌≡◌, ℕ, ◌∷◌, ◌≤ℤ◌, ◌<ℤ◌,
}

notifies :
    (id now : ℕ) (p : CreateNotificationParams) (n : Notification) (db : Db)
    → create_notification id now p db ≡ ok (n, record db { notifications = n ∷ db.notifications })
    → notify_party id now p.direction p.transfer_id p.account_id db
      ≡ ok (
        tt,
        record db {
          notifications = n ∷ db.notifications;
          published = (n.id, n.owner) ∷ db.published;
        },
      )
unfolding notify_party publish_notification
notifies id now p n db h = step-ok classify_error (create_notification id now p) _ h

-- What a transfer that was posted answers, by the accounts as they were.
abbrev pub paid : Pg → TransferTxParams → Account → Account → TransferTxResult
paid pg arg from to = record {
  transfer = new_transfer pg arg;
  from_account = add_balance (neg64 arg.amount) from;
  to_account = add_balance arg.amount to;
  from_entry = sent_entry pg arg;
  to_entry = received_entry pg arg;
}

module _ (pg : Pg) (arg : TransferTxParams) (db : Db) (from to : Account)
    (a : Admitted pg arg db from to) where
  abbrev pub sent_row : Notification
  sent_row =
      notification_row (pg.uuidv7 3) pg.now "sent" (add_balance (neg64 arg.amount) from)
        (new_transfer pg arg)

  abbrev pub received_row : Notification
  received_row =
      notification_row (pg.uuidv7 4) pg.now "received" (add_balance arg.amount to)
        (new_transfer pg arg)

  from_id : from.id ≡ arg.from_account_id
  from_id =
      (==_iff from.id arg.from_account_id).0
        (find?_holds (account_id_is arg.from_account_id) db.accounts from a.from_found)

  to_id : to.id ≡ arg.to_account_id
  to_id =
      (==_iff to.id arg.to_account_id).0
        (find?_holds (account_id_is arg.to_account_id) db.accounts to a.to_found)

  from_after :
      find? (account_id_is from.id) (moved_accounts arg db.accounts)
      ≡ some (add_balance (neg64 arg.amount) from)
  from_after =
      ap (λ i. find? (account_id_is i) (moved_accounts arg db.accounts)) from_id
      ∙ find?-add_to_ne arg.from_account_id arg.to_account_id arg.amount _ a.distinct
      ∙ find?-add_to_self arg.from_account_id (neg64 arg.amount) db.accounts from a.from_found

  to_after :
      find? (account_id_is to.id) (moved_accounts arg db.accounts)
      ≡ some (add_balance arg.amount to)
  to_after =
      ap (λ i. find? (account_id_is i) (moved_accounts arg db.accounts)) to_id
      ∙ find?-add_to_self arg.to_account_id arg.amount _ to (
          find?-add_to_ne arg.to_account_id arg.from_account_id (neg64 arg.amount) db.accounts
            (λ e. a.distinct (sym e))
          ∙ a.to_found)

  stored_transfer :
      find? (transfer_id_is (pg.uuidv7 0)) (new_transfer pg arg ∷ db.transfers)
      ≡ some (new_transfer pg arg)
  stored_transfer = rw (==_refl (pg.uuidv7 0))

  sent_made :
      arg.amount ≤ℤ from.balance
      → create_notification
          (pg.uuidv7 3)
          pg.now
          (record { direction = "sent"; transfer_id = pg.uuidv7 0; account_id = from.id })
          (moved pg arg db)
        ≡ ok (sent_row, record (moved pg arg db) { notifications = sent_row ∷ db.notifications })
  sent_made covered =
      let debit = debit_is pg arg db from to a in
      create_notification_accepts (pg.uuidv7 3) pg.now
        (record { direction = "sent"; transfer_id = pg.uuidv7 0; account_id = from.id })
        (moved pg arg db) (add_balance (neg64 arg.amount) from) (new_transfer pg arg) from_after
        stored_transfer (ground (arith, from_id)) a.positive a.safe
        (rw debit (omega (int_laws, covered)))
        (rw debit (omega (int_laws, a.positive, a.from_range.safe))) a.ids.sent
        (ap (λ i. exists (about_is (pg.uuidv7 0) i) db.notifications) from_id ∙ a.ids.sent_about)
        a.from_owner

  about_receiver : exists (about_is (pg.uuidv7 0) to.id) db.notifications ≡ false
  about_receiver =
      ap (λ i. exists (about_is (pg.uuidv7 0) i) db.notifications) to_id ∙ a.ids.received_about

  abbrev half_notified : Db
  half_notified = record (moved pg arg db) {
    notifications = sent_row ∷ db.notifications;
    published = (sent_row.id, sent_row.owner) ∷ db.published;
  }

  received_made :
      create_notification
        (pg.uuidv7 4)
        pg.now
        (record { direction = "received"; transfer_id = pg.uuidv7 0; account_id = to.id })
        half_notified
      ≡ ok (
        received_row,
        record half_notified { notifications = received_row ∷ sent_row ∷ db.notifications },
      )
  received_made =
      create_notification_accepts (pg.uuidv7 4) pg.now
        (record { direction = "received"; transfer_id = pg.uuidv7 0; account_id = to.id })
        half_notified (add_balance arg.amount to) (new_transfer pg arg) to_after stored_transfer
        (ground (arith, to_id)) a.positive a.safe
        (omega (int_laws, a.positive, a.to_range.nonnegative)) (room pg arg db from to a)
        (ground (arith, a.ids.received, a.ids.notifications_apart))
        (ground (arith, from_id, to_id, a.distinct, about_receiver)) a.to_owner

  pub posts_both :
      arg.amount ≤ℤ from.balance
      → post_transfer pg arg from to db
        ≡ ok (paid pg arg from to, posted pg arg sent_row received_row db)
  unfolding post_transfer
  posts_both covered =
      >>=-ok (check_limits pg.clock arg from to) _ (passes pg arg db from to a)
      ∙ >>=-ok (move_money pg arg) _ (pays pg arg db from to a covered)
      ∙ >>=-ok (notify_party (pg.uuidv7 3) pg.now "sent" (pg.uuidv7 0) from.id) _ (
          notifies (pg.uuidv7 3) pg.now
            (record { direction = "sent"; transfer_id = pg.uuidv7 0; account_id = from.id })
            sent_row (moved pg arg db) (sent_made covered))
      ∙ >>=-ok (notify_party (pg.uuidv7 4) pg.now "received" (pg.uuidv7 0) to.id) _ (
          notifies (pg.uuidv7 4) pg.now
            (record { direction = "received"; transfer_id = pg.uuidv7 0; account_id = to.id })
            received_row half_notified received_made)

  pub posts_nothing :
      from.balance <ℤ arg.amount → post_transfer pg arg from to db ≡ err insufficient_balance
  unfolding post_transfer
  posts_nothing short =
      >>=-ok (check_limits pg.clock arg from to) _ (passes pg arg db from to a)
      ∙ >>=-err (move_money pg arg) _ (lacks pg arg db from to a short)
