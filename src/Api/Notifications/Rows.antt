-- ===== src/Api/Notifications/Rows.antt =====
-- internal/api/notification.go: the rows that a cursor asks for.
use simplebank.Api.Notifications.{NotificationCursor, page_arg}
use simplebank.Prelude.{
  ◌≡◌, ◌∙◌, ◌==◌, ap, sym, ℤ, String, Bool, true, false, Option, none, some, List, [], ◌∷◌, str_eq,
  ◌&&◌, ◌||◌, select, order_by, All, arith, refl, Comparable, select-select, select-order_by,
}
use simplebank.Sqlc.Models.{Notification, Db}
use simplebank.Sqlc.Notifications.{newer_notification, older_than}
use simplebank.Store.Notification.Pages.{from_cursor}

-- The owner's notifications, newest first.
abbrev pub owned : String → Db → List Notification
owned owner db = order_by newer_notification (select (λ n. str_eq n.owner owner) db.notifications)

-- No two rows have the same id.
abbrev pub IdsDiffer : List Notification → Type 0
IdsDiffer [] = Unit
IdsDiffer (n ∷ ns) = All (λ (m : Notification). (n.id == m.id) ≡ false) ns × IdsDiffer ns

pub newer_trans :
    (x y z : Notification)
    → newer_notification x y ≡ true
    → newer_notification y z ≡ true
    → newer_notification x z ≡ true
newer_trans x y z a b = ground arith

pub newer_irrefl : (x : Notification) → newer_notification x x ≡ false
newer_irrefl x = ground arith

pub IdsDiffer-Comparable :
    (ns : List Notification) → IdsDiffer ns → Comparable newer_notification ns
IdsDiffer-Comparable [] h = tt
IdsDiffer-Comparable (n ∷ ns) h = (apart ns h.0, IdsDiffer-Comparable ns h.1)
  where
    apart :
        (ms : List Notification)
        → All (λ (m : Notification). (n.id == m.id) ≡ false) ms
        → All (λ (m : Notification). (newer_notification n m || newer_notification m n) ≡ true) ms
    apart [] h = tt
    apart (m ∷ ms) h = (ground (arith, h.0), apart ms h.1)

-- What a cursor asks for, of the owner's rows in their order.
abbrev pub after : Option NotificationCursor → Notification → Bool
after none n = true
after (some c) n = older_than c.created_at c.id n

pub no_cursor_takes : (ns : List Notification) → All (λ n. after none n ≡ true) ns
no_cursor_takes [] = tt
no_cursor_takes (n ∷ ns) = (refl, no_cursor_takes ns)

narrowed :
    (owner : String) (from : Option NotificationCursor) (db : Db)
    → Comparable newer_notification (select (λ n. str_eq n.owner owner) db.notifications)
    → order_by newer_notification
        (select (λ n. str_eq n.owner owner && after from n) db.notifications)
      ≡ select (after from) (owned owner db)
narrowed owner from db c =
    ap (order_by newer_notification)
      (select-select (λ n. str_eq n.owner owner) (after from) db.notifications)
    ∙ sym (
        select-order_by newer_notification newer_trans newer_irrefl (after from)
          (select (λ n. str_eq n.owner owner) db.notifications) c)

pub cursor-select :
    (owner : String) (size : ℤ) (from : Option NotificationCursor) (db : Db)
    → Comparable newer_notification (select (λ n. str_eq n.owner owner) db.notifications)
    → from_cursor (page_arg owner size from) db ≡ select (after from) (owned owner db)
cursor-select owner size none db c = narrowed owner none db c
cursor-select owner size (some x) db c = narrowed owner (some x) db c
