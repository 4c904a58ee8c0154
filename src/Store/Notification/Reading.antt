-- ===== src/Store/Notification/Reading.antt =====
-- internal/db/notification_tx.go: marking notifications read.
use simplebank.Errors.{record_not_found, no_rows, err, classify_error, ok}
use simplebank.Prelude.{
  Option-cases, none, some, inr, ◌∙◌, eq_iff, sym, inl, Bool-cases, false, ◌&&◌, ◌==◌, true, str_eq,
  find?-update_where_other, length, List, ap, arith, select-update_where_gone, update_where, find?,
  ◌≢◌, ℕ, [], select, ◌≡◌, String,
}
use simplebank.Sqlc.Models.{Notification, Db, Pg}
use simplebank.Sqlc.Notifications.{
  read_once, mark_notification_read, read_at_now, is_of, is_unread, count_unread_notifications,
  mark_all_notifications_read, lock_notification_owner,
}
use simplebank.Store.Exec.{exec_tx}
use simplebank.Store.Notification.{
  mark_notification_read_body, mark_notification_read_tx, mark_all_notifications_read_body,
  mark_all_notifications_read_tx,
}

not_of :
    (i id : ℕ) (o other owner : String)
    → other ≢ owner
    → str_eq o owner ≡ true
    → ((i == id && str_eq o other) ≡ false) × ((i == id && str_eq o other) ≡ false)
not_of i id o other owner ne mine = elim (Bool-cases (str_eq o other)) [
  | inl hit ↦ absurd (ne (sym ((eq_iff o other).0 hit) ∙ (eq_iff o owner).0 mine))
  | inr miss ↦ ground arith
]

none_left :
    (now : ℕ) (owner : String) (ns : List Notification)
    → select (is_unread owner) (update_where (is_unread owner) (read_at_now now) ns) ≡ []
none_left now owner ns =
    select-update_where_gone (is_unread owner) (read_at_now now) (λ n e. ground arith) ns

-- Marking all of an owner's notifications read answers that none is unread, which is true of the
-- state that it leaves.
pub all_read :
    (pg : Pg) (owner : String) (db : Db)
    → let x = mark_all_notifications_read_tx pg owner db in
      (x.0 ≡ ok 0) × (select (is_unread owner) x.1.notifications ≡ [])
unfolding mark_all_notifications_read_tx mark_all_notifications_read_body exec_tx
    lock_notification_owner mark_all_notifications_read count_unread_notifications
all_read pg owner db = (
  ap (λ (l : List Notification). ok (length l)) (none_left pg.now owner db.notifications),
  none_left pg.now owner db.notifications,
)

-- Marking all of one owner's notifications read changes none of another owner's.
pub others_kept :
    (pg : Pg) (owner other : String) (id : ℕ) (db : Db)
    → other ≢ owner
    → find? (is_of id other) (mark_all_notifications_read_tx pg owner db).1.notifications
      ≡ find? (is_of id other) db.notifications
unfolding mark_all_notifications_read_tx mark_all_notifications_read_body exec_tx
    lock_notification_owner mark_all_notifications_read count_unread_notifications
others_kept pg owner other id db ne =
    find?-update_where_other (is_unread owner) (is_of id other) (read_at_now pg.now)
      (λ n e. not_of n.id id n.owner other owner ne (ground arith)) db.notifications

read_row :
    (now id : ℕ) (owner : String) (db : Db)
    → mark_notification_read now id owner db ≡ elim (find? (is_of id owner) db.notifications) [
      | none ↦ err no_rows
      | some n ↦ ok (
        read_once now n,
        record db {
          notifications = update_where (is_of id owner) (read_once now) db.notifications;
        },
      )
    ]
unfolding mark_notification_read
read_row now id owner db = ground arith

-- Marking one notification read needs one of this id and owner. It sets the time of reading only
-- where there was none, and answers with the number that the owner has not read.
pub one_read :
    (pg : Pg) (owner : String) (id : ℕ) (db : Db)
    → mark_notification_read_tx pg owner id db ≡ elim (find? (is_of id owner) db.notifications) [
      | none ↦ (err record_not_found, db)
      | some n ↦
          let rows = update_where (is_of id owner) (read_once pg.now) db.notifications in
          (ok (length (select (is_unread owner) rows)), record db { notifications = rows })
    ]
unfolding mark_notification_read_tx mark_notification_read_body exec_tx lock_notification_owner
    count_unread_notifications classify_error
one_read pg owner id db = elim (Option-cases (find? (is_of id owner) db.notifications)) [
  | inl missing ↦ ground (arith, read_row pg.now id owner db)
  | inr (n, found) ↦ ground (arith, read_row pg.now id owner db)
]
