-- ===== src/Tests/Hub.antt =====
-- internal/notification/hub.go and the event stream: calls of the hub, and a stream of Bob.
use simplebank.Hub.Invariant.{publishes, hub_run}
use simplebank.Prelude.{false, none, true, refl, some, ◌≡◌, arith, [], ◌∷◌, find?, List}
use simplebank.Api.Stream.{
  Turn, connected, notification, keepalive, notified, ticked, written, stream_notifications,
}
use simplebank.Api.Stream.Forwards.{ids_of, stream_forwards}
use simplebank.Api.Handler.{auth_payload}
use simplebank.Hub.Channel.{Within}
use simplebank.Token.{Payload}
use simplebank.Hub.{receive, unsubscribe, subscribe, publish, subscriber_is, new_hub}

abbrev caller : Payload
caller = record {
  id = 1;
  username = "bob";
  role = "depositor";
  token_type = "access";
  nonce = "";
  issued_at = 0;
  expires_at = 900;
  expected_type = "access";
}

-- Two notifications for Bob and one for Alice, of which the second frame cannot be written.
abbrev turns : List Turn
turns =
    record {
      meanwhile = publishes "bob" 7 ∷ publishes "alice" 8 ∷ publishes "bob" 9 ∷ [];
      wake = notified;
      is_written = true;
    }
    ∷ record { meanwhile = []; wake = ticked; is_written = true }
    ∷ record { meanwhile = []; wake = notified; is_written = false }
    ∷ []

stream_of_two :
    (stream_notifications (some caller) written turns new_hub).frames
    ≡ connected ∷ notification 7 ∷ keepalive ∷ []
unfolding stream_notifications auth_payload subscribe unsubscribe publish receive hub_run
stream_of_two = refl

stream_forwards_example :
    let x = stream_notifications (some caller) written turns new_hub in
    Within (ids_of x.frames) (7 ∷ 9 ∷ []) × (find? (subscriber_is "bob" 0) x.hub.subscribers ≡ none)
stream_forwards_example = stream_forwards caller written turns new_hub refl (omega arith)
