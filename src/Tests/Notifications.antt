-- ===== src/Tests/Notifications.antt =====
-- The two notifications of the payment, listed and read.
use simplebank.Prelude.{pos, false}
use simplebank.Store.Notification.{ListNotificationsPageParams}

abbrev first_page : ListNotificationsPageParams
first_page = record {
  owner = "bob";
  has_cursor = false;
  cursor_created_at = 0;
  cursor_id = 0;
  limit = pos 20;
}
