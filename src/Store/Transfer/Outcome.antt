-- ===== src/Store/Transfer/Outcome.antt =====
-- internal/db/transfer_tx.go: the body of the transaction under a new key.
use simplebank.Sqlc.Accounts.{account_id_is}
use simplebank.Store.Transfer.Posted.{
  new_transfer, moved_accounts, move_money-MoneyMoved, MoneyMoved, moved,
}
use simplebank.Currency.{max_safe_minor_units}
use simplebank.Sqlc.Tx.{>>=-eq-ok, step-eq-ok}
use simplebank.Errors.{classify_error, ok}
use simplebank.Sqlc.Effects.{create_notification-NotificationCreated, NotificationCreated}
use simplebank.Sqlc.Transfers.{least, outgoing_since, sum_amounts, sum_outgoing_transfers_since}
use simplebank.Sqlc.Models.{Transfer, Pg, Notification, Account, Db}
use simplebank.Sqlc.Notifications.{
  create_notification, CreateNotificationParams, publish_notification,
}
use simplebank.Store.Transfer.{
  move_money, TransferTxResult, post_transfer, check_daily_limit, TransferTxParams, check_limits,
  notify_party,
}
use simplebank.Prelude.{
  false, ◌&&◌, List, subst, ap, ◌∙◌, subst₂, some, find?, select, arith, pos, ltb_ℤ, sub64, ◌≤ℤ◌,
  ◌∷◌, true, ◌≡◌, str_eq, String, ℕ,
}

-- A party got its notification and its NOTIFY.
pub record PartyNotified (id now : ℕ) (direction : String) (transfer_id account_id : ℕ)
    (db db' : Db) : Type 0 where
  pub n : Notification
  pub created :
      NotificationCreated id now
        (record { direction = direction; transfer_id = transfer_id; account_id = account_id })
        db.accounts
        db.transfers
        db.notifications
        n
  pub state : db' ≡ record db {
    notifications = n ∷ db.notifications;
    published = (n.id, n.owner) ∷ db.published;
  }

pub notify_party-PartyNotified :
    (id now : ℕ) (direction : String) (transfer_id account_id : ℕ) (db : Db) {db' : Db}
    → notify_party id now direction transfer_id account_id db ≡ ok (tt, db')
    → PartyNotified id now direction transfer_id account_id db db'
unfolding notify_party publish_notification
notify_party-PartyNotified id now direction transfer_id account_id db {db'} h =
    let p : CreateNotificationParams = record {
      direction = direction;
      transfer_id = transfer_id;
      account_id = account_id;
    } in
    let (n, db1, e1, h1) = step-eq-ok classify_error (create_notification id now p) _ h in
    let x = create_notification-NotificationCreated id now p db e1 in
    record { n = n; created = x.0; state = ground arith }

-- The checks that a transfer has passed.
pub record LimitsPassed (clock : ℕ) (arg : TransferTxParams) (from to : Account)
    (transfers : List Transfer) : Type 0 where
  pub from_currency : str_eq from.currency arg.currency ≡ true
  pub to_currency : str_eq to.currency arg.currency ≡ true
  pub room : to.balance ≤ℤ sub64 max_safe_minor_units arg.amount
  pub within_limit : (ltb_ℤ (pos 0) arg.daily_limit && ltb_ℤ arg.daily_limit arg.amount) ≡ false
  pub within_day :
      (ltb_ℤ (pos 0) arg.daily_limit
        && ltb_ℤ (sub64 arg.daily_limit arg.amount) (
            least
              (sum_amounts (select (outgoing_since arg.from_account_id clock) transfers))
              max_safe_minor_units))
      ≡ false

pub check_limits-LimitsPassed :
    (clock : ℕ) (arg : TransferTxParams) (from to : Account) (db : Db) {db' : Db}
    → check_limits clock arg from to db ≡ ok (tt, db')
    → LimitsPassed clock arg from to db.transfers × (db' ≡ db)
unfolding check_limits check_daily_limit sum_outgoing_transfers_since
check_limits-LimitsPassed clock arg from to db h = ground arith

-- The state after a posted transfer, by its two notifications.
abbrev pub posted : Pg → TransferTxParams → Notification → Notification → Db → Db
posted pg arg sent received db = record (moved pg arg db) {
  notifications = received ∷ sent ∷ db.notifications;
  published = (received.id, received.owner) ∷ (sent.id, sent.owner) ∷ db.published;
}

-- A transfer with a new key was posted to `db`, and returned `r`.
pub record Posted (pg : Pg) (arg : TransferTxParams) (db : Db) (r : TransferTxResult) (db' : Db)
    : Type 0 where
  pub from : Account
  pub to : Account
  pub from_found : find? (account_id_is arg.from_account_id) db.accounts ≡ some from
  pub to_found : find? (account_id_is arg.to_account_id) db.accounts ≡ some to
  pub limits : LimitsPassed pg.clock arg from to db.transfers
  pub money : MoneyMoved pg arg db.accounts db.transfers r
  pub sent : Notification
  pub sent_created :
      NotificationCreated
        (pg.uuidv7 3)
        pg.now
        (record { direction = "sent"; transfer_id = r.transfer.id; account_id = r.from_account.id })
        (moved_accounts arg db.accounts)
        (new_transfer pg arg ∷ db.transfers)
        db.notifications
        sent
  pub received : Notification
  pub received_created :
      NotificationCreated
        (pg.uuidv7 4)
        pg.now
        (record {
          direction = "received";
          transfer_id = r.transfer.id;
          account_id = r.to_account.id;
        })
        (moved_accounts arg db.accounts)
        (new_transfer pg arg ∷ db.transfers)
        (sent ∷ db.notifications)
        received
  pub state : db' ≡ posted pg arg sent received db

-- The parts of the transaction, one after the other, make up a posted transfer.
assemble :
    (pg : Pg) (arg : TransferTxParams) (from to : Account) (db db0 db1 db2 db3 : Db)
    (x : TransferTxResult)
    → find? (account_id_is arg.from_account_id) db.accounts ≡ some from
    → find? (account_id_is arg.to_account_id) db.accounts ≡ some to
    → LimitsPassed pg.clock arg from to db.transfers
    → db0 ≡ db
    → MoneyMoved pg arg db0.accounts db0.transfers x
    → db1 ≡ moved pg arg db0
    → PartyNotified (pg.uuidv7 3) pg.now "sent" x.transfer.id x.from_account.id db1 db2
    → PartyNotified (pg.uuidv7 4) pg.now "received" x.transfer.id x.to_account.id db2 db3
    → Posted pg arg db x db3
assemble pg arg from to db db0 db1 db2 db3 x f t l e0 m e1' s v = record {
  from = from;
  to = to;
  from_found = f;
  to_found = t;
  limits = l;
  money = subst (λ (d : Db). MoneyMoved pg arg d.accounts d.transfers x) e0 m;
  sent = s.n;
  sent_created =
      subst
        (λ (d : Db).
          NotificationCreated (pg.uuidv7 3) pg.now
            (record {
              direction = "sent";
              transfer_id = x.transfer.id;
              account_id = x.from_account.id;
            })
            d.accounts d.transfers d.notifications s.n)
        e1 s.created;
  received = v.n;
  received_created =
      subst
        (λ (d : Db).
          NotificationCreated (pg.uuidv7 4) pg.now
            (record {
              direction = "received";
              transfer_id = x.transfer.id;
              account_id = x.to_account.id;
            })
            d.accounts d.transfers d.notifications v.n)
        e2 v.created;
  state = v.state ∙ ap (notified v.n) e2;
}
  where
    notified : Notification → Db → Db
    notified n d = record d {
      notifications = n ∷ d.notifications;
      published = (n.id, n.owner) ∷ d.published;
    }

    e1 : db1 ≡ moved pg arg db
    e1 = e1' ∙ ap (moved pg arg) e0

    e2 : db2 ≡ notified s.n (moved pg arg db)
    e2 = s.state ∙ ap (notified s.n) e1

pub post_transfer-Posted :
    (pg : Pg) (arg : TransferTxParams) (from to : Account) (db : Db) {r : TransferTxResult}
    {db' : Db}
    → find? (account_id_is arg.from_account_id) db.accounts ≡ some from
    → find? (account_id_is arg.to_account_id) db.accounts ≡ some to
    → post_transfer pg arg from to db ≡ ok (r, db')
    → Posted pg arg db r db'
unfolding post_transfer
post_transfer-Posted pg arg from to db f t h =
    let (_, db0, e0, h0) = >>=-eq-ok (check_limits pg.clock arg from to) _ h in
    let (x, db1, e1, h1) = >>=-eq-ok (move_money pg arg) _ h0 in
    let (_, db2, e2, h2) =
      >>=-eq-ok (notify_party (pg.uuidv7 3) pg.now "sent" x.transfer.id x.from_account.id) _ h1 in
    let (_, db3, e3, h3) =
      >>=-eq-ok (notify_party (pg.uuidv7 4) pg.now "received" x.transfer.id x.to_account.id) _ h2 in
    let l = check_limits-LimitsPassed pg.clock arg from to db e0 in
    let m = move_money-MoneyMoved pg arg db0 e1 in
    let s =
      notify_party-PartyNotified (pg.uuidv7 3) pg.now "sent" x.transfer.id x.from_account.id db1
        e2 in
    let v =
      notify_party-PartyNotified (pg.uuidv7 4) pg.now "received" x.transfer.id x.to_account.id db2
        e3 in
    subst₂ (Posted pg arg db) (ground arith) (ground arith)
      (assemble pg arg from to db db0 db1 db2 db3 x f t l.0 l.1 m.0 m.1 s v)
