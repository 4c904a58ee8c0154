-- ===== src/Sqlc/Notifications.antt =====
-- internal/db/sqlc/notifications.sql.go, with the constraints of the table notifications.
use simplebank.Currency.{max_safe_minor_units}
use simplebank.Errors.{ok, no_rows, pg_error, refuse_if, or_err, ◌>>=◌, ◌>>◌}
use simplebank.Prelude.{
  ℕ, ℤ, pos, pos_part, ltb_ℤ, leb_ℤ, ltb, String, Bool, true, false, not, ◌&&◌, ◌||◌, none, some,
  List, ◌∷◌, ◌==◌, str_eq, length, find?, exists, select, update_where, order_by, take,
}
use simplebank.Sqlc.Accounts.{account_id_is, username_is}
use simplebank.Sqlc.Models.{Account, Transfer, Notification}
use simplebank.Sqlc.Transfers.{transfer_id_is}
use simplebank.Sqlc.Tx.{Tx}

pub record CreateNotificationParams : Type 0 where
  pub direction : String
  pub transfer_id : ℕ
  pub account_id : ℕ

abbrev pub notification_id_is : ℕ → Notification → Bool
notification_id_is id n = n.id == id

abbrev pub about_is : ℕ → ℕ → Notification → Bool
about_is transfer account n = n.transfer_id == transfer && n.account_id == account

-- The condition of the join on the direction.
abbrev pub direction_fits : String → Account → Transfer → Bool
direction_fits direction a t =
    (str_eq direction "sent" && t.from_account_id == a.id)
    || (str_eq direction "received" && t.to_account_id == a.id)

abbrev pub notification_row : ℕ → ℕ → String → Account → Transfer → Notification
notification_row id now direction a t = record {
  id = id;
  owner = a.owner;
  account_id = a.id;
  transfer_id = t.id;
  direction = direction;
  amount = t.amount;
  currency = a.currency;
  balance = a.balance;
  read_at = none;
  created_at = now;
}

-- INSERT INTO notifications … SELECT from the account joined with the transfer.
unfoldable pub create_notification : ℕ → ℕ → CreateNotificationParams → Tx Notification
create_notification id now p db = do
  a ← or_err (find? (account_id_is p.account_id) db.accounts) no_rows
  t ← or_err (find? (transfer_id_is p.transfer_id) db.transfers) no_rows
  refuse_if (not (direction_fits p.direction a t)) no_rows
  refuse_if (leb_ℤ t.amount (pos 0) || ltb_ℤ max_safe_minor_units t.amount)
      (pg_error "23514" "notifications_amount_check")
  refuse_if (ltb_ℤ a.balance (pos 0) || ltb_ℤ max_safe_minor_units a.balance)
      (pg_error "23514" "notifications_balance_check")
  refuse_if (exists (notification_id_is id) db.notifications)
      (pg_error "23505" "notifications_pkey")
  refuse_if (exists (about_is t.id a.id) db.notifications)
      (pg_error "23505" "notifications_transfer_id_account_id_key")
  refuse_if (not (exists (username_is a.owner) db.users))
      (pg_error "23503" "notifications_owner_fkey")
  ok (
    notification_row id now p.direction a t,
    record db { notifications = notification_row id now p.direction a t ∷ db.notifications },
  )

-- SELECT pg_notify('balance_notifications', …)
unfoldable pub publish_notification : ℕ → String → Tx (Unit {0})
publish_notification id owner db = ok (tt, record db { published = (id, owner) ∷ db.published })

pub record ListNotificationsParams : Type 0 where
  pub owner : String
  pub has_cursor : Bool
  pub cursor_created_at : ℕ
  pub cursor_id : ℕ
  pub page_limit : ℤ

-- (created_at, id) < (a time, an id), as rows compare
abbrev pub older_than : ℕ → ℕ → Notification → Bool
older_than created_at id n =
    ltb n.created_at created_at || (n.created_at == created_at && ltb n.id id)

-- ORDER BY created_at DESC, id DESC
abbrev pub newer_notification : Notification → Notification → Bool
newer_notification a b = older_than a.created_at a.id b

abbrev pub in_page : ListNotificationsParams → Notification → Bool
in_page p n =
    str_eq n.owner p.owner && (not p.has_cursor || older_than p.cursor_created_at p.cursor_id n)

-- LIMIT refuses a negative count.
unfoldable pub list_notifications : ListNotificationsParams → Tx (List Notification)
list_notifications p db = do
  refuse_if (ltb_ℤ p.page_limit (pos 0)) (pg_error "2201W" "")
  ok (
    take (pos_part p.page_limit)
        (order_by newer_notification (select (in_page p) db.notifications)),
    db,
  )

abbrev pub is_unread : String → Notification → Bool
is_unread owner n = str_eq n.owner owner && elim n.read_at [ none ↦ true | some _ ↦ false ]

unfoldable pub count_unread_notifications : String → Tx ℕ
count_unread_notifications owner db = ok (length (select (is_unread owner) db.notifications), db)

-- The advisory lock of an owner is held to the end of the transaction; it reads and writes no row.
unfoldable pub lock_notification_owner : String → Tx (Unit {0})
lock_notification_owner owner db = ok (tt, db)

abbrev pub is_of : ℕ → String → Notification → Bool
is_of id owner n = n.id == id && str_eq n.owner owner

-- SET read_at = COALESCE(read_at, now())
abbrev pub read_once : ℕ → Notification → Notification
read_once now n = record n { read_at = elim n.read_at [ none ↦ some now | some t ↦ some t ] }

unfoldable pub mark_notification_read : ℕ → ℕ → String → Tx Notification
mark_notification_read now id owner db = do
  row ← or_err (find? (is_of id owner) db.notifications) no_rows
  ok (
    read_once now row,
    record db { notifications = update_where (is_of id owner) (read_once now) db.notifications },
  )

abbrev pub read_at_now : ℕ → Notification → Notification
read_at_now now n = record n { read_at = some now }

-- It returns the number of the rows that it updated.
unfoldable pub mark_all_notifications_read : ℕ → String → Tx ℕ
mark_all_notifications_read now owner db = ok (
  length (select (is_unread owner) db.notifications),
  record db { notifications = update_where (is_unread owner) (read_at_now now) db.notifications },
)
