-- ===== src/Api/Notifications.antt =====
-- internal/api/notification.go: the pages of notifications, their cursors, and marking them read.
pub mod Cursor
pub mod Rows
pub mod Walk
use simplebank.Api.Errors.{Failure, new_api_error}
use simplebank.Api.Handler.{
  done, Reply, fails, Handler, ◌>>=◌, reply, given, call, of_result, parsed, auth_payload,
  page_size,
}
use simplebank.Errors.{Result, ok, err, Error, foreign}
use simplebank.Prelude.{
  ℕ, ℤ, pos, String, Bool, true, false, Option, none, some, List, [], ◌∷◌, map, last, ◌==◌, ◌&&◌,
  ◌||◌, if◌then◌else◌,
}
use simplebank.Sqlc.Models.{Notification, Pg}
use simplebank.Store.Notification.{
  ListNotificationsPageParams, ListNotificationsPageResult, list_notifications_page,
  mark_notification_read_tx, mark_all_notifications_read_tx,
}
use simplebank.Token.{Payload}

pub record NotificationResponse : Type 0 where
  pub id : ℕ
  pub account_id : ℕ
  pub transfer_id : ℕ
  pub direction : String
  pub amount : ℤ
  pub currency : String
  pub balance : ℤ
  pub read_at : Option ℕ
  pub created_at : ℕ

pub record ListNotificationsResponse : Type 0 where
  pub notifications : List NotificationResponse
  pub unread_count : ℕ
  pub next_cursor : Option String

pub record NotificationReadResponse : Type 0 where
  pub unread_count : ℕ

pub record NotificationCursor : Type 0 where
  pub created_at : ℕ
  pub id : ℕ

abbrev pub new_notification_response : Notification → NotificationResponse
new_notification_response n = record {
  id = n.id;
  account_id = n.account_id;
  transfer_id = n.transfer_id;
  direction = n.direction;
  amount = n.amount;
  currency = n.currency;
  balance = n.balance;
  read_at = n.read_at;
  created_at = n.created_at;
}

abbrev pub cursor_of : Notification → NotificationCursor
cursor_of n = record { created_at = n.created_at; id = n.id }

-- The packages json and base64. `decode` reads one cursor from a text without unknown fields, and
-- says whether the text ends there; `decode_base64` is strict.
pub record Codec : Type 0 where
  pub marshal : NotificationCursor → Result String
  pub decode : String → Result (NotificationCursor × Bool)
  pub encode_base64 : String → String
  pub decode_base64 : String → Result String

abbrev pub err_invalid_notification_cursor : Error
err_invalid_notification_cursor = foreign "invalid notification cursor"

-- What is left to check of a cursor that was decoded.
abbrev pub check_cursor : NotificationCursor × Bool → Result NotificationCursor
check_cursor (cursor, ends) = elim ends [
  | false ↦ err err_invalid_notification_cursor
  | true ↦
      if cursor.created_at == 0 || cursor.id == 0
      then err err_invalid_notification_cursor
      else ok cursor
]

abbrev pub invalid_notification_cursor : Failure
invalid_notification_cursor =
    new_api_error 400 "invalid_notification_cursor" "invalid notification cursor"

module _ (codec : Codec) where
  unfoldable pub decode_notification_cursor : String → Result NotificationCursor
  decode_notification_cursor value = elim (codec.decode_base64 value) [
    | err e ↦ err e
    | ok raw ↦ elim (codec.decode raw) [ err e ↦ err e | ok read ↦ check_cursor read ]
  ]

  unfoldable pub encode_notification_cursor : NotificationCursor → Result String
  encode_notification_cursor cursor = elim (codec.marshal cursor) [
    | err e ↦ err e
    | ok raw ↦ ok (codec.encode_base64 raw)
  ]

  -- The cursor that the request asks for: none where the query has no cursor.
  abbrev pub asked_cursor : Option (List String) → Reply (Option NotificationCursor)
  asked_cursor none = done none
  asked_cursor (some (value ∷ [])) = elim (decode_notification_cursor value) [
    | err _ ↦ fails invalid_notification_cursor
    | ok cursor ↦ done (some cursor)
  ]
  asked_cursor (some _) = fails invalid_notification_cursor

  abbrev pub next_of : Option Notification → Result (Option String)
  next_of none = ok none
  next_of (some row) = elim (encode_notification_cursor (cursor_of row)) [
    | err e ↦ err e
    | ok text ↦ ok (some text)
  ]

  -- A page that has more after it is followed by the cursor of its last row.
  abbrev pub next_cursor_of : ListNotificationsPageResult → Result (Option String)
  next_cursor_of page = elim page.has_more [
    | false ↦ ok none
    | true ↦ next_of (last page.notifications)
  ]

abbrev pub page_arg : String → ℤ → Option NotificationCursor → ListNotificationsPageParams
page_arg owner size from = record {
  owner = owner;
  has_cursor = elim from [ none ↦ false | some _ ↦ true ];
  cursor_created_at = elim from [ none ↦ 0 | some cursor ↦ cursor.created_at ];
  cursor_id = elim from [ none ↦ 0 | some cursor ↦ cursor.id ];
  limit = size;
}

-- `size` is the parsed query parameter, 20 where it is missing, and `cursor` the values of the
-- parameter `cursor`, if the query has it.
unfoldable pub list_notifications_handler :
    Codec → Option ℤ → Option (List String) → Option Payload → Handler ListNotificationsResponse
unfolding decode_notification_cursor encode_notification_cursor
list_notifications_handler codec size cursor token = do
  asked ← given (parsed size (new_api_error 400 "invalid_size" "invalid size"))
  from ← given (asked_cursor codec cursor)
  payload ← given (auth_payload token)
  page ← call (list_notifications_page (page_arg payload.username (page_size (pos 20) asked) from))
  next ← given (of_result (next_cursor_of codec page))
  reply (record {
    notifications = map new_notification_response page.notifications;
    unread_count = page.unread_count;
    next_cursor = next;
  })

unfoldable pub mark_notification_read_handler :
    Pg → Option ℕ → Option Payload → Handler NotificationReadResponse
mark_notification_read_handler pg id token = do
  read ← given (parsed id (new_api_error 400 "invalid_notification_id" "invalid notification id"))
  payload ← given (auth_payload token)
  unread ← call (mark_notification_read_tx pg payload.username read)
  reply (record { unread_count = unread })

unfoldable pub mark_all_notifications_read_handler :
    Pg → Option Payload → Handler NotificationReadResponse
mark_all_notifications_read_handler pg token = do
  payload ← given (auth_payload token)
  unread ← call (mark_all_notifications_read_tx pg payload.username)
  reply (record { unread_count = unread })
