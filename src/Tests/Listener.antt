-- ===== src/Tests/Listener.antt =====
-- internal/notification/listener.go: a connection that is lost and found again, and a start that
-- fails before one that succeeds.
use simplebank.Hub.{Hub, new_hub}
use simplebank.Listener.{
  Message, connect_failed, listen_failed, connected, connect_error, initial_backoff,
  maximum_backoff, reconnect, reconnected, new_listener, begin_start, finish_start, run, waiting,
  reconnect_from,
}
use simplebank.Listener.Backoff.{reconnect_ends}
use simplebank.Listener.Forwarding.{
  Connection, script, received, messages, publish_all, run_forwards,
}
use simplebank.Listener.Lifecycle.{channels_close_once}
use simplebank.Listener.System.{System, Reach, here, later, starts, connects, Distinct}
use simplebank.Prelude.{
  leb, ◌||◌, ◌+◌, ◌≡◌, ◌≤◌, ◌∷◌, [], refl, none, some, All, List, String, Option, str_eq,
  if◌then◌else◌, inl, inr, length, true,
}

reconnect_ends_example :
    (reconnect (connect_failed ∷ listen_failed ∷ connected ∷ [])
      ≡ (100_000 ∷ 200_000 ∷ 400_000 ∷ [], reconnected))
    × All (λ d. (initial_backoff ≤ d) × (d ≤ maximum_backoff)) (100_000 ∷ 200_000 ∷ 400_000 ∷ [])
reconnect_ends_example =
    reconnect_ends (connect_failed ∷ listen_failed ∷ []) (inl refl, (inr refl, tt))

abbrev unmarshal : String → Option Message
unmarshal t =
    if str_eq t "payment"
    then some (record { id = 5; owner = "alice" })
    else if str_eq t "nobody"
    then some (record { id = 6; owner = "" })
    else none

abbrev lost : List Connection
lost =
    record {
      notifications = some "payment" ∷ none ∷ [];
      attempts = connect_failed ∷ connected ∷ [];
    }
    ∷ []

abbrev hub : Hub
hub = record new_hub { subscribers = record { owner = "alice"; number = 0; buffer = [] } ∷ [] }

reconnects : (reconnect (connect_failed ∷ connected ∷ [])).1 ≡ reconnected
unfolding reconnect reconnect_from
reconnects = refl

run_forwards_example : run unmarshal (script lost (some "nobody" ∷ some "payment" ∷ [])) hub ≡ (
  publish_all (messages unmarshal (received lost (some "nobody" ∷ some "payment" ∷ []))) hub,
  waiting,
)
run_forwards_example =
    run_forwards unmarshal lost (some "nobody" ∷ some "payment" ∷ []) hub (reconnects, tt)

-- A start that fails, a start that succeeds, a stop, and the return of the loop.
abbrev initial : System
initial = record { listener = new_listener; connecting = []; running = [] }

abbrev after_start : System
after_start = record initial { listener = (begin_start new_listener).1; connecting = 0 ∷ [] }

started_once : Reach after_start
unfolding begin_start
started_once = later here (starts 0 refl)

abbrev after_failure : System
after_failure = record {
  listener = (finish_start 0 connect_error after_start.listener).1;
  connecting = [];
  running = [];
}

failed_once : Reach after_failure
failed_once = later started_once (connects 0 connect_error refl)

channels_close_once_example :
    Distinct (0 ∷ [])
    × (length after_failure.connecting + length after_failure.running ≤ 1)
    × ((after_failure.listener.started
          || leb (length after_failure.connecting + length after_failure.running) 0)
        ≡ true)
unfolding finish_start begin_start
channels_close_once_example = channels_close_once failed_once
