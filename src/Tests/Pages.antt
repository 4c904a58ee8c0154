-- ===== src/Tests/Pages.antt =====
-- internal/api/notification.go: the pages of two notifications, one by one.
use simplebank.Api.Notifications.{Codec, NotificationCursor, new_notification_response}
use simplebank.Api.Notifications.Cursor.{CodecLaws}
use simplebank.Api.Notifications.Walk.{walk, walk_complete}
use simplebank.Errors.{Result, ok, err, foreign}
use simplebank.Prelude.{
  ap, ◌∙◌, subst, ◌≡◌, ◌==◌, ◌&&◌, ◌∷◌, [], refl, some, none, pos, map, arith, ℕ, String, Bool,
  true, if◌then◌else◌, str_eq, inl, inr, Bool-cases,
}
use simplebank.Sqlc.Models.{Db, Notification}
use simplebank.Tests.{bank}
use simplebank.Token.{Payload, new_expected_payload, access}

abbrev cursor : ℕ → NotificationCursor
cursor i = record { created_at = i; id = i }

-- A codec that writes two cursors.
abbrev write : NotificationCursor → Result String
write c =
    if c.created_at == 7 && c.id == 7
    then ok "seven"
    else if c.created_at == 8 && c.id == 8
    then ok "eight"
    else err (foreign "not written")

abbrev read : String → Result (NotificationCursor × Bool)
read t =
    if str_eq t "seven"
    then ok (cursor 7, true)
    else if str_eq t "eight"
    then ok (cursor 8, true)
    else err (foreign "not read")

abbrev codec : Codec
codec = record { marshal = write; decode = read; encode_base64 = λ t. t; decode_base64 = λ t. ok t }

is_cursor :
    (c : NotificationCursor) (i : ℕ) → (c.created_at == i && c.id == i) ≡ true → cursor i ≡ c
is_cursor c i h =
    let created : c.created_at ≡ i = ground arith in
    let named : c.id ≡ i = ground arith in cc (created, named)

-- Reading the text of a cursor that was written.
returned :
    (c : NotificationCursor) (i : ℕ) (s t : String)
    → (c.created_at == i && c.id == i) ≡ true
    → write c ≡ ok s
    → write c ≡ ok t
    → read s ≡ ok (cursor i, true)
    → read t ≡ ok (c, true)
returned c i s t hit e h r =
    let same : s ≡ t = cc (e, h) in
    subst (λ u. read u ≡ ok (c, true)) same (r ∙ ap (λ d. ok (d, true)) (is_cursor c i hit))

read-write : (c : NotificationCursor) (t : String) → write c ≡ ok t → read t ≡ ok (c, true)
read-write c t h = elim (Bool-cases (c.created_at == 7 && c.id == 7)) [
  | inl seven ↦ returned c 7 "seven" t seven (rw seven) h refl
  | inr other ↦ elim (Bool-cases (c.created_at == 8 && c.id == 8)) [
    | inl eight ↦ returned c 8 "eight" t eight (rw (other, eight)) h refl
    | inr neither ↦
        let e : write c ≡ err (foreign "not written") = rw (other, neither) in absurd (cc (e, h))
  ]
]

codec_laws : CodecLaws codec
codec_laws = record { decodes = read-write; base64 = λ t. refl }

abbrev notification : ℕ → Notification
notification i = record {
  id = i;
  owner = "alice";
  account_id = 10;
  transfer_id = i;
  direction = "sent";
  amount = pos 1;
  currency = "USD";
  balance = pos 1;
  read_at = none;
  created_at = i;
}

abbrev noted_bank : Db
noted_bank = record bank { notifications = notification 7 ∷ notification 8 ∷ [] }

abbrev alice : Payload
alice = record (new_expected_payload access) { username = "alice" }

walk_complete_example :
    walk codec (pos 1) alice 3 none noted_bank
    ≡ some (map new_notification_response (notification 8 ∷ notification 7 ∷ []))
walk_complete_example =
    walk_complete codec codec_laws (pos 1) alice noted_bank ((refl, tt), (tt, tt))
      (
        record { raw = "eight"; written = refl; after_zero = omega arith; not_nil = omega arith },
        (
          record { raw = "seven"; written = refl; after_zero = omega arith; not_nil = omega arith },
          tt,
        ),
      )
