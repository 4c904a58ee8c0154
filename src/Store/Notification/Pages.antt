-- ===== src/Store/Notification/Pages.antt =====
-- internal/db/notification_tx.go: the pages of an owner's notifications.
use simplebank.Sqlc.Tx.{lift, step-ok}
use simplebank.Store.Exec.{exec_tx-ok}
use simplebank.Errors.{classify_error, ok}
use simplebank.Sqlc.Notifications.{
  ListNotificationsParams, count_unread_notifications, list_notifications, is_unread, in_page,
  newer_notification,
}
use simplebank.Prelude.{
  wrap32_id, int_laws, eq_of_parts, ◌+ℤ◌, take_short, inr, length-take, take-take-suc, ap, arith,
  inl, ◌∙◌, Bool-cases, wrap32, suc, ℤ, ltb, length, take, ◌-◌, select, ◌^◌, ◌<◌, order_by, pos,
  ◌≡◌, List, ℕ,
}
use simplebank.Sqlc.Models.{Notification, Db}
use simplebank.Store.Notification.{
  page_of, list_notifications_body, page_params, ListNotificationsPageParams,
  list_notifications_page,
}

-- All notifications from a page's cursor on, newest first.
abbrev pub from_cursor : ListNotificationsPageParams → Db → List Notification
from_cursor arg db =
    order_by newer_notification (select (in_page (page_params arg)) db.notifications)

-- One row more than the limit is enough to see whether there are more.
page_of-take :
    (limit unread : ℕ) (rows : List Notification)
    → page_of (pos limit) (take (suc limit) rows) unread
      ≡ ok (record {
        notifications = take limit rows;
        unread_count = unread;
        has_more = ltb limit (length rows);
      })
unfolding page_of
page_of-take limit unread rows = elim (Bool-cases (ltb limit (length rows))) [
  | inl more ↦ ground (arith, take-take-suc limit rows, length-take (suc limit) rows (ground arith))
  | inr all ↦
      ground
        (arith, take_short (suc limit) rows (ground arith), take_short limit rows (ground arith))
]

listed :
    (p : ListNotificationsParams) (n : ℕ) (db : Db)
    → p.page_limit ≡ pos n
    → list_notifications p db
      ≡ ok (take n (order_by newer_notification (select (in_page p) db.notifications)), db)
unfolding list_notifications
listed p n db e = ground arith

one_more :
    (limit : ℤ) (n : ℕ) → limit ≡ pos n → n < 2 ^ 31 - 1 → wrap32 (limit +ℤ pos 1) ≡ pos (suc n)
one_more limit n e small =
    let sum : limit +ℤ pos 1 ≡ pos (suc n) =
      rw e (eq_of_parts (pos n +ℤ pos 1) (pos (suc n)) (omega int_laws)) in
    ap wrap32 sum ∙ wrap32_id (pos (suc n)) (record { least = omega arith; greatest = omega arith })

page_body :
    (arg : ListNotificationsPageParams) (limit : ℕ) (db : Db)
    → arg.limit ≡ pos limit
    → limit < 2 ^ 31 - 1
    → list_notifications_body arg db
      ≡ ok (
        record {
          notifications = take limit (from_cursor arg db);
          unread_count = length (select (is_unread arg.owner) db.notifications);
          has_more = ltb limit (length (from_cursor arg db));
        },
        db,
      )
unfolding list_notifications_body count_unread_notifications
page_body arg limit db e small =
    step-ok classify_error (list_notifications (page_params arg)) _
      (listed (page_params arg) (suc limit) db (one_more arg.limit limit e small))
    ∙ ap (λ r. lift r db)
        (ap
            (λ l.
              page_of l (take (suc limit) (from_cursor arg db))
                (length (select (is_unread arg.owner) db.notifications)))
            e
          ∙ page_of-take limit _ (from_cursor arg db))

-- For a limit below 2^31 - 1 that is not negative, a page is the first `limit` rows from the
-- cursor on, `has_more` says whether there are more than these, the count is that of the owner's
-- unread notifications, and nothing changes.
pub page_is_prefix :
    (arg : ListNotificationsPageParams) (limit : ℕ) (db : Db)
    → arg.limit ≡ pos limit
    → limit < 2 ^ 31 - 1
    → list_notifications_page arg db ≡ (
      ok (record {
        notifications = take limit (from_cursor arg db);
        unread_count = length (select (is_unread arg.owner) db.notifications);
        has_more = ltb limit (length (from_cursor arg db));
      }),
      db,
    )
unfolding list_notifications_page
page_is_prefix arg limit db e small =
    exec_tx-ok (list_notifications_body arg) (page_body arg limit db e small)
