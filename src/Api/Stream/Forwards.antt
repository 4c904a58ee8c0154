-- ===== src/Api/Stream/Forwards.antt =====
-- internal/api/notification.go: `streamNotifications`, and what its client gets of the hub.
use simplebank.Token.{Payload}
use simplebank.Api.Handler.{auth_payload}
use simplebank.Hub.Channel.{Within, ended, kept, published, are_foreign, chained, calls_kept}
use simplebank.Hub.Delivery.{unsubscribed_is_gone}
use simplebank.Hub.{fresh, taken, receive, subscriber_is, subscribe, Hub, Subscriber}
use simplebank.Api.Stream.{
  written, notified, committed, uncommitted, opened, ticked, stream_over, Opening, oldest_of,
  on_wake, first, stream_notifications, stream_loop, Wake, on_id, Frame, notification, Turn,
}
use simplebank.Hub.Invariant.{hub_run}
use simplebank.Prelude.{
  none, find?-update_where, eq_refl, sym, ◌^◌, ◌<◌, some, arith, refl, false, find?, subst, ◌≡◌, ℕ,
  ◌+◌, String, Bool, true, ◌&&◌, List, [], ◌∷◌, ◌++◌, length,
}

abbrev pub published_in_turns : String → List Turn → List ℕ
published_in_turns owner [] = []
published_in_turns owner (t ∷ turns) = published owner t.meanwhile ++ published_in_turns owner turns

-- The ids that a client reads.
abbrev pub ids_of : List Frame → List ℕ
ids_of [] = []
ids_of (notification id ∷ frames) = id ∷ ids_of frames
ids_of (_ ∷ frames) = ids_of frames

module _ (owner : String) (number : ℕ) where
  abbrev pub turns_foreign : List Turn → Bool
  turns_foreign [] = true
  turns_foreign (t ∷ turns) = are_foreign owner number t.meanwhile && turns_foreign turns

abbrev pub count_calls : List Turn → ℕ
count_calls [] = 0
count_calls (t ∷ turns) = length t.meanwhile + count_calls turns

module _ (owner : String) (number : ℕ) where
  -- One turn, when the later ones forward what they find.
  module _ (q : List ℕ) (rest : Hub → List Frame × Hub) (h : Hub)
      (later : (h' : Hub) (s : Subscriber)
        → h'.next_id ≡ h.next_id
        → find? (subscriber_is owner number) h'.subscribers ≡ some s
        → Within (ids_of (rest h').0) (s.buffer ++ q)) where
    id_forwards :
        (w : Bool) (o : String) (n : ℕ) (buffer : List ℕ)
        → find? (subscriber_is owner number) h.subscribers
          ≡ some (record { owner = o; number = n; buffer = buffer })
        → Within (ids_of (on_id owner number (first buffer) w rest h).0) (buffer ++ q)
    unfolding receive
    id_forwards w o n [] found = later h _ refl found
    id_forwards false o n (id ∷ buffer) found = ended
    id_forwards true o n (id ∷ buffer) found = kept (
        later (receive owner number h) _ refl
          (find?-update_where (subscriber_is owner number) taken (λ x. refl) h.subscribers _ found))

    turn_forwards :
        (wake : Wake) (w : Bool) (s : Subscriber)
        → find? (subscriber_is owner number) h.subscribers ≡ some s
        → Within (ids_of (on_wake owner number wake w rest h).0) (s.buffer ++ q)
    turn_forwards stream_over w s found = ended
    turn_forwards ticked true s found = later h s refl found
    turn_forwards ticked false s found = ended
    turn_forwards notified w s found =
        subst (λ r. Within (ids_of (on_id owner number (oldest_of r) w rest h).0) (s.buffer ++ q))
          (sym found) (id_forwards w s.owner s.number s.buffer found)

  loop_forwards :
      (turns : List Turn) (h : Hub) (s : Subscriber)
      → turns_foreign owner number turns ≡ true
      → number < h.next_id
      → h.next_id + count_calls turns < 2 ^ 64
      → find? (subscriber_is owner number) h.subscribers ≡ some s
      → Within
          (ids_of (stream_loop owner number turns h).0)
          (s.buffer ++ published_in_turns owner turns)
  unfolding stream_loop
  loop_forwards [] h s f low small found = ended
  loop_forwards (t ∷ turns) h s f low small found =
      let before = calls_kept owner number t.meanwhile h s (ground arith) low (omega arith) found in
      chained _ before.row.buffer s.buffer (published owner t.meanwhile)
        (published_in_turns owner turns)
        (turn_forwards (published_in_turns owner turns) (stream_loop owner number turns)
          (hub_run t.meanwhile h)
          (λ h' row same there.
            loop_forwards turns h' row (ground arith) (omega (arith, same, before.above))
              (omega (arith, same, before.few)) there)
          t.wake t.is_written before.row before.found)
        before.waits

-- A stream of a caller whose token is good, however its turns go and it ends: the ids that it
-- writes are, in their order, some of those that are published to the caller while it is open,
-- each publication at most once; and after it the hub has no subscriber under its number. The
-- other calls of the hub are any but an unsubscribing or a receiving of this stream, and too few
-- for a number to recur.
pub stream_forwards :
    (payload : Payload) (opening : Opening) (turns : List Turn) (h : Hub)
    → turns_foreign payload.username h.next_id turns ≡ true
    → h.next_id + 1 + count_calls turns < 2 ^ 64
    → let x = stream_notifications (some payload) opening turns h in
      Within (ids_of x.frames) (published_in_turns payload.username turns)
      × (find? (subscriber_is payload.username h.next_id) x.hub.subscribers ≡ none)
unfolding stream_notifications auth_payload subscribe
stream_forwards payload opening turns h f small =
    (written_ids opening, unsubscribed_is_gone payload.username h.next_id _)
  where
    written_ids :
        (opening : Opening)
        → Within
            (ids_of (
              (opened payload.username h.next_id opening turns
                (subscribe payload.username h).1).frames))
            (published_in_turns payload.username turns)
    written_ids committed = ended
    written_ids (uncommitted e) = ended
    written_ids written =
        loop_forwards payload.username h.next_id turns (subscribe payload.username h).1
          (fresh payload.username h.next_id) f (omega arith) (omega arith)
          (ground (arith, eq_refl payload.username))
