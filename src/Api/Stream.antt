-- ===== src/Api/Stream.antt =====
-- internal/api/notification.go: `streamNotifications`. Each turn of its loop is what others did to
-- the hub before it, what the select found ready, and whether the frame could be written.
pub mod Forwards
use simplebank.Api.Errors.{Failure, echo}
use simplebank.Api.Handler.{Reply, done, fails, auth_payload}
use simplebank.Hub.{Hub, Subscriber, subscribe, unsubscribe, receive, subscriber_is}
use simplebank.Hub.Invariant.{Event, hub_run}
use simplebank.Prelude.{ℕ, String, Bool, true, false, Option, none, some, List, [], ◌∷◌, find?}
use simplebank.Token.{Payload}

pub data Frame : Type 0 where
  connected keepalive : Frame
  notification : ℕ → Frame

-- The deadline of the token or the end of the request, an id in the channel, or a tick.
pub data Wake : Type 0 where
  stream_over notified ticked : Wake

pub record Turn : Type 0 where
  pub meanwhile : List Event
  pub wake : Wake
  pub is_written : Bool

-- How the first frame went: written, or failed with the response committed or not.
pub data Opening : Type 0 where
  written committed : Opening
  uncommitted : Failure → Opening

pub record Streamed : Type 0 where
  pub reply : Reply (Unit {0})
  pub frames : List Frame
  pub hub : Hub

abbrev pub first : List ℕ → Option ℕ
first [] = none
first (id ∷ ids) = some id

abbrev pub oldest_of : Option Subscriber → Option ℕ
oldest_of none = none
oldest_of (some s) = first s.buffer

-- The frame is counted if it was written; otherwise the loop ends.
abbrev pub after_frame : Bool → Frame → (Hub → List Frame × Hub) → Hub → List Frame × Hub
after_frame true frame rest h = let (frames, h') = rest h in (frame ∷ frames, h')
after_frame false frame rest h = ([], h)

module _ (owner : String) (number : ℕ) where
  -- The oldest id is taken out of the channel. An empty channel wakes nobody, so that the select
  -- waits on.
  abbrev pub on_id : Option ℕ → Bool → (Hub → List Frame × Hub) → Hub → List Frame × Hub
  on_id none is_written rest h = rest h
  on_id (some id) is_written rest h =
      after_frame is_written (notification id) rest (receive owner number h)

  abbrev pub on_wake : Wake → Bool → (Hub → List Frame × Hub) → Hub → List Frame × Hub
  on_wake stream_over is_written rest h = ([], h)
  on_wake notified is_written rest h =
      on_id (oldest_of (find? (subscriber_is owner number) h.subscribers)) is_written rest h
  on_wake ticked is_written rest h = after_frame is_written keepalive rest h

  -- The turns end when the request does.
  unfoldable pub stream_loop : List Turn → Hub → List Frame × Hub
  stream_loop [] h = ([], h)
  stream_loop (t ∷ turns) h =
      on_wake t.wake t.is_written (stream_loop turns) (hub_run t.meanwhile h)

abbrev pub streamed : List Frame × Hub → Streamed
streamed (frames, h) = record { reply = done tt; frames = connected ∷ frames; hub = h }

-- `unsubscribe` is deferred, so that it is the last step however the stream ends.
abbrev pub unsubscribed : String → ℕ → Streamed → Streamed
unsubscribed owner number x = record x { hub = unsubscribe owner number x.hub }

abbrev pub opened : String → ℕ → Opening → List Turn → Hub → Streamed
opened owner number written turns h = streamed (stream_loop owner number turns h)
opened owner number committed turns h = record { reply = done tt; frames = []; hub = h }
opened owner number (uncommitted e) turns h = record { reply = fails e; frames = []; hub = h }

abbrev pub stream_for : Reply Payload → Opening → List Turn → Hub → Streamed
stream_for (fails e) opening turns h = record { reply = fails e; frames = []; hub = h }
stream_for (done payload) opening turns h =
    let (number, h') = subscribe payload.username h in
    unsubscribed payload.username number (opened payload.username number opening turns h')

-- A payload always has its expiry.
unfoldable pub stream_notifications : Option Payload → Opening → List Turn → Hub → Streamed
unfolding stream_loop
stream_notifications token opening turns h = stream_for (auth_payload token) opening turns h
