-- ===== src/Api/Notifications/Walk.antt =====
-- internal/api/notification.go: a client that asks listNotifications for one page after the other.
use simplebank.Api.Notifications.Rows.{
  no_cursor_takes, newer_irrefl, after, newer_trans, IdsDiffer-Comparable, cursor-select, IdsDiffer,
  owned,
}
use simplebank.Api.Handler.{
  Reply, done, fails, ◌>>=◌, given, call, of_result, auth_payload, page_size,
}
use simplebank.Api.Notifications.{
  Codec, NotificationCursor, NotificationResponse, ListNotificationsResponse, asked_cursor,
  page_arg, next_of, next_cursor_of, cursor_of, new_notification_response,
  list_notifications_handler, decode_notification_cursor, encode_notification_cursor,
}
use simplebank.Api.Notifications.Cursor.{CodecLaws, IsCursor, cursor_returns}
use simplebank.Api.Steps.{call-done, >>=-done}
use simplebank.Errors.{ok}
use simplebank.Prelude.{
  ◌-◌, pos_part, ◌≡◌, ◌∙◌, ◌<◌, ◌≤◌, ◌+◌, ap, sym, ℕ, zero, suc, ℤ, pos, String, true, Option, none,
  some, List, [], ◌∷◌, ◌++◌, map, map-append, last, str_eq, select, All, take, drop, length, ltb,
  arith, refl, inl, inr, Bool-cases, Comparable, select_whole, order_by-Sorted, select_after_page,
  page_has_last, page_last_has, take-drop, drop-drop, length-drop, take_short,
}
use simplebank.Sqlc.Models.{Notification, Db}
use simplebank.Sqlc.Notifications.{newer_notification, is_unread}
use simplebank.Store.Notification.{ListNotificationsPageResult, list_notifications_page}
use simplebank.Store.Notification.Pages.{from_cursor, page_is_prefix}
use simplebank.Token.{Payload}

-- The client: it follows the cursors until there is none, and fails where a page does or where
-- the fuel does not last.
append :
    List NotificationResponse
    → Option (List NotificationResponse)
    → Option (List NotificationResponse)
append xs none = none
append xs (some ys) = some (xs ++ ys)

follow :
    (Option (List String) → Db → Option (List NotificationResponse))
    → Reply ListNotificationsResponse × Db
    → Option (List NotificationResponse)
follow rest (fails e, db) = none
follow rest (done page, db) = elim page.next_cursor [
  | none ↦ some page.notifications
  | some text ↦ append page.notifications (rest (some (text ∷ [])) db)
]

unfoldable pub walk :
    Codec → ℤ → Payload → ℕ → Option (List String) → Db → Option (List NotificationResponse)
unfolding follow append
walk codec size payload zero cursor db = none
walk codec size payload (suc fuel) cursor db =
    follow (walk codec size payload fuel)
      (list_notifications_handler codec (some size) cursor (some payload) db)

-- The size of a page is from 1 to 100.
page_sized : (size : ℤ) → (n : ℕ) × (page_size (pos 20) size ≡ pos (suc n)) × (n < 100)
page_sized size = (pos_part (page_size (pos 20) size) - 1, ground arith, ground arith)

-- The cursor of a page that has more after it, and a request with it.
next_cursor-more :
    (codec : Codec) (page : ListNotificationsPageResult) (x : Notification) (text : String)
    → page.has_more ≡ true
    → last page.notifications ≡ some x
    → encode_notification_cursor codec (cursor_of x) ≡ ok text
    → next_cursor_of codec page ≡ ok (some text)
next_cursor-more codec page x text more at written =
    rw more (ap (next_of codec) at ∙ rw (next_of, written))

asked_cursor-text :
    (codec : Codec) (text : String) (c : NotificationCursor)
    → decode_notification_cursor codec text ≡ ok c
    → asked_cursor codec (some (text ∷ [])) ≡ done (some c)
asked_cursor-text codec text c read = rw (asked_cursor, read)

module _ (codec : Codec) (laws : CodecLaws codec) (size : ℤ) (n : ℕ) (payload : Payload) (db : Db)
    (sized : page_size (pos 20) size ≡ pos (suc n)) (small : n < 100) where
  abbrev page_after : List Notification → ListNotificationsPageResult
  page_after rows = record {
    notifications = take (suc n) rows;
    unread_count = length (select (is_unread payload.username) db.notifications);
    has_more = ltb (suc n) (length rows);
  }

  abbrev response_of : List Notification → Option String → ListNotificationsResponse
  response_of rows next = record {
    notifications = map new_notification_response (take (suc n) rows);
    unread_count = length (select (is_unread payload.username) db.notifications);
    next_cursor = next;
  }

  -- One page, from any cursor.
  page_answered :
      (cursor : Option (List String)) (from : Option NotificationCursor) (rows : List Notification)
      (next : Option String)
      → asked_cursor codec cursor ≡ done from
      → from_cursor (page_arg payload.username (page_size (pos 20) size) from) db ≡ rows
      → next_cursor_of codec (page_after rows) ≡ ok next
      → list_notifications_handler codec (some size) cursor (some payload) db
        ≡ (done (response_of rows next), db)
  unfolding list_notifications_handler auth_payload ◌>>=◌
  page_answered cursor from rows next asked found more =
      >>=-done (given (asked_cursor codec cursor)) _ (ap (λ r. (r, db)) asked)
      ∙ >>=-done
          (call
            (list_notifications_page (page_arg payload.username (page_size (pos 20) size) from)))
          _ {s' = db} {a = page_after rows}
          (call-done
            (list_notifications_page (page_arg payload.username (page_size (pos 20) size) from))
            (page_is_prefix (page_arg payload.username (page_size (pos 20) size) from) (suc n) db
                sized (omega arith)
              ∙ ap (λ rs. (ok (page_after rs), db)) found))
      ∙ >>=-done (given (of_result (next_cursor_of codec (page_after rows)))) _
          (ap (λ r. (of_result r, db)) more)

  -- The rows from a place on, asked for by a cursor.
  abbrev rest : ℕ → List Notification
  rest d = drop d (owned payload.username db)

  -- A page that has more after it is followed by a cursor for what is left.
  next_page :
      (d : ℕ)
      → Comparable newer_notification
          (select (λ n. str_eq n.owner payload.username) db.notifications)
      → All (λ m. IsCursor codec (cursor_of m)) (owned payload.username db)
      → ltb (suc n) (length (rest d)) ≡ true
      → (text : String) × (x : Notification) × (next_cursor_of codec (page_after (rest d))
          ≡ ok (some text))
        × (asked_cursor codec (some (text ∷ [])) ≡ done (some (cursor_of x)))
        × (from_cursor (page_arg payload.username (page_size (pos 20) size) (some (cursor_of x))) db
            ≡ rest (d + suc n))
  next_page d c fit more =
      let (x, at) = page_has_last n (rest d) (ground arith) in
      let (text, written, read) = cursor_returns codec laws (cursor_of x) (
        page_last_has (λ m. IsCursor codec (cursor_of m)) (suc n) d (owned payload.username db) fit
          at) in
      (
        text,
        x,
        next_cursor-more codec (page_after (rest d)) x text more at written,
        asked_cursor-text codec text (cursor_of x) read,
        cursor-select payload.username (page_size (pos 20) size) (some (cursor_of x)) db c
            ∙ select_after_page newer_notification newer_trans newer_irrefl n d
                (owned payload.username db)
                (order_by-Sorted newer_notification newer_trans newer_irrefl
                  (select (λ m. str_eq m.owner payload.username) db.notifications) c)
                at
            ∙ drop-drop d (suc n) (owned payload.username db),
      )

  fewer :
      (k d : ℕ) → length (rest d) < suc k → suc n ≤ length (rest d) → length (rest (d + suc n)) < k
  fewer k d enough more =
      let shorter = length-drop (suc n) (rest d) more in
      let same = ap length (drop-drop d (suc n) (owned payload.username db)) in
      omega (arith, shorter, same)

  joined :
      (d : ℕ)
      → map new_notification_response (take (suc n) (rest d))
          ++ map new_notification_response (rest (d + suc n))
        ≡ map new_notification_response (rest d)
  joined d =
      ap
        (λ rs.
          map new_notification_response (take (suc n) (rest d)) ++ map new_notification_response rs)
        (sym (drop-drop d (suc n) (owned payload.username db)))
      ∙ sym (map-append new_notification_response (take (suc n) (rest d)) (drop (suc n) (rest d)))
      ∙ ap (map new_notification_response) (take-drop (suc n) (rest d))

  -- The pages from a place on, with fuel for them.
  walk_from :
      (k d : ℕ) (cursor : Option (List String)) (from : Option NotificationCursor)
      → Comparable newer_notification
          (select (λ m. str_eq m.owner payload.username) db.notifications)
      → All (λ m. IsCursor codec (cursor_of m)) (owned payload.username db)
      → length (rest d) < k
      → asked_cursor codec cursor ≡ done from
      → from_cursor (page_arg payload.username (page_size (pos 20) size) from) db ≡ rest d
      → walk codec size payload k cursor db ≡ some (map new_notification_response (rest d))
  unfolding walk
  walk_from zero d cursor from c fit enough asked found = absurd (omega arith)
  walk_from (suc k) d cursor from c fit enough asked found =
      elim (Bool-cases (ltb (suc n) (length (rest d)))) [
        | inr all ↦
            ap (follow (walk codec size payload k))
              (page_answered cursor from (rest d) none asked found (rw all))
            ∙ ap (λ rs. some (map new_notification_response rs))
                (take_short (suc n) (rest d) (ground arith))
        | inl more ↦
            let (text, x, next, again, left) = next_page d c fit more in
            ap (follow (walk codec size payload k))
              (page_answered cursor from (rest d) (some text) asked found next)
            ∙ ap (append (map new_notification_response (take (suc n) (rest d)))) (
                walk_from k (d + suc n) (some (text ∷ [])) (some (cursor_of x)) c fit
                  (fewer k d enough (ground arith)) again left)
            ∙ ap some (joined d)
      ]

-- Following the cursors shows every notification of the caller once, newest first: if the codec
-- keeps its laws, no two of the caller's rows have the same id, and every row has an id and a time
-- that are not zero and that json can write, then with any size parameter, and with fuel for one
-- page more than there are rows, a client that starts without a cursor ends, and has collected
-- exactly the caller's rows in their order.
pub walk_complete :
    (codec : Codec) (laws : CodecLaws codec) (size : ℤ) (payload : Payload) (db : Db)
    → IdsDiffer (select (λ n. str_eq n.owner payload.username) db.notifications)
    → All (λ n. IsCursor codec (cursor_of n)) (owned payload.username db)
    → walk codec size payload (suc (length (owned payload.username db))) none db
      ≡ some (map new_notification_response (owned payload.username db))
walk_complete codec laws size payload db differ fit =
    let c =
      IdsDiffer-Comparable (select (λ n. str_eq n.owner payload.username) db.notifications)
        differ in
    let (n, sized, small) = page_sized size in
    walk_from codec laws size n payload db sized small (suc (length (owned payload.username db))) 0
      none none c fit (omega arith) refl
      (cursor-select payload.username (page_size (pos 20) size) none db c
        ∙ select_whole (after none) (owned payload.username db)
            (no_cursor_takes (owned payload.username db)))
