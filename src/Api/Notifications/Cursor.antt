-- ===== src/Api/Notifications/Cursor.antt =====
-- internal/api/notification.go: a cursor that was encoded, decoded.
use simplebank.Api.Notifications.{
  Codec, NotificationCursor, check_cursor, decode_notification_cursor, encode_notification_cursor,
}
use simplebank.Errors.{ok}
use simplebank.Prelude.{◌≡◌, ◌<◌, String, true, arith}

-- What the packages document: json reads back what it wrote, and base64 decodes what it encoded.
pub record CodecLaws (codec : Codec) : Type 0 where
  pub decodes :
      (c : NotificationCursor) (raw : String)
      → codec.marshal c ≡ ok raw
      → codec.decode raw ≡ ok (c, true)
  pub base64 : (raw : String) → codec.decode_base64 (codec.encode_base64 raw) ≡ ok raw

-- A cursor of a row: json writes it, and neither its time nor its id is zero.
pub record IsCursor (codec : Codec) (c : NotificationCursor) : Type 0 where
  pub raw : String
  pub written : codec.marshal c ≡ ok raw
  pub after_zero : 0 < c.created_at
  pub not_nil : 0 < c.id

checked : (c : NotificationCursor) → 0 < c.created_at → 0 < c.id → check_cursor (c, true) ≡ ok c
checked c after_zero not_nil = ground arith

pub cursor_returns :
    (codec : Codec)
    → CodecLaws codec
    → (c : NotificationCursor) → IsCursor codec c
    → (text : String) × (encode_notification_cursor codec c ≡ ok text)
      × (decode_notification_cursor codec text ≡ ok c)
unfolding encode_notification_cursor decode_notification_cursor
cursor_returns codec laws c h = (
  codec.encode_base64 h.raw,
  rw (h.written, encode_notification_cursor),
  rw (decode_notification_cursor, laws.base64 h.raw, laws.decodes c h.raw h.written)
      (checked c h.after_zero h.not_nil),
)
