-- ===== src/Store/Notification.antt =====
-- internal/db/notification_tx.go: the pages of an owner's notifications, and marking them read.
-- The test hooks `afterListNotifications` and `afterMarkNotificationRead` are nil.
pub mod Pages
pub mod Reading
use simplebank.Store.Exec.{exec_tx}
use simplebank.Errors.{foreign, err, ok, classify_error, Result}
use simplebank.Sqlc.Models.{Notification, Pg, Db}
use simplebank.Sqlc.Notifications.{
  mark_all_notifications_read, mark_notification_read, count_unread_notifications,
  lock_notification_owner, list_notifications, ListNotificationsParams,
}
use simplebank.Prelude.{
  false, negsuc, true, length, take, ltb_ℤ, pos, ◌+ℤ◌, if◌then◌else◌, ℕ, wrap32, Bool, ℤ, List,
  String,
}
use simplebank.Sqlc.Tx.{lift, map_error, Tx, ◌>>=◌, ◌>>◌}

pub record ListNotificationsPageParams : Type 0 where
  pub owner : String
  pub has_cursor : Bool
  pub cursor_created_at : ℕ
  pub cursor_id : ℕ
  pub limit : ℤ

pub record ListNotificationsPageResult : Type 0 where
  pub notifications : List Notification
  pub unread_count : ℕ
  pub has_more : Bool

-- `rows[:limit]` panics on a negative bound.
abbrev pub slice : ℤ → List Notification → Result (List Notification)
slice (pos n) rows = ok (take n rows)
slice (negsuc n) rows = err (foreign "slice bounds out of range")

-- The row past the limit shows that there are more.
unfoldable pub page_of : ℤ → List Notification → ℕ → Result ListNotificationsPageResult
page_of limit rows unread =
    if ltb_ℤ limit (pos (length rows))
    then elim (slice limit rows) [
      | ok kept ↦ ok (record { notifications = kept; unread_count = unread; has_more = true })
      | err e ↦ err e
    ]
    else ok (record { notifications = rows; unread_count = unread; has_more = false })

abbrev pub page_params : ListNotificationsPageParams → ListNotificationsParams
page_params arg = record {
  owner = arg.owner;
  has_cursor = arg.has_cursor;
  cursor_created_at = arg.cursor_created_at;
  cursor_id = arg.cursor_id;
  page_limit = wrap32 (arg.limit +ℤ pos 1);
}

unfoldable pub list_notifications_body :
    ListNotificationsPageParams → Tx ListNotificationsPageResult
unfolding page_of
list_notifications_body arg = do
  rows ← map_error classify_error (list_notifications (page_params arg))
  unread ← map_error classify_error (count_unread_notifications arg.owner)
  lift (page_of arg.limit rows unread)

unfoldable pub list_notifications_page :
    ListNotificationsPageParams → Db → Result ListNotificationsPageResult × Db
unfolding list_notifications_body
list_notifications_page arg = exec_tx (list_notifications_body arg)

unfoldable pub mark_notification_read_body : Pg → String → ℕ → Tx ℕ
mark_notification_read_body pg owner id = do
  map_error classify_error (lock_notification_owner owner)
  map_error classify_error (mark_notification_read pg.now id owner)
  map_error classify_error (count_unread_notifications owner)

unfoldable pub mark_notification_read_tx : Pg → String → ℕ → Db → Result ℕ × Db
unfolding mark_notification_read_body
mark_notification_read_tx pg owner id = exec_tx (mark_notification_read_body pg owner id)

unfoldable pub mark_all_notifications_read_body : Pg → String → Tx ℕ
mark_all_notifications_read_body pg owner = do
  map_error classify_error (lock_notification_owner owner)
  map_error classify_error (mark_all_notifications_read pg.now owner)
  map_error classify_error (count_unread_notifications owner)

unfoldable pub mark_all_notifications_read_tx : Pg → String → Db → Result ℕ × Db
unfolding mark_all_notifications_read_body
mark_all_notifications_read_tx pg owner = exec_tx (mark_all_notifications_read_body pg owner)
