-- ===== src/Listener.antt =====
-- internal/notification/listener.go: the connection that LISTENs for balance notifications, and
-- hands them to the hub. What the driver and the clock answer is a script of the arguments.
pub mod Backoff
pub mod Forwarding
pub mod System
pub mod Shapes
pub mod Lifecycle
use simplebank.Errors.{Result, ok, err, Error, foreign}
use simplebank.Hub.{Hub, publish}
use simplebank.Prelude.{
  ◌*◌, ◌+◌, ltb, ℕ, String, Bool, true, false, not, Option, none, some, List, [], ◌∷◌, ◌==◌, ◌||◌,
  str_eq, if◌then◌else◌,
}

-- 100 milliseconds and 5 seconds, in microseconds.
abbrev pub initial_backoff : ℕ
initial_backoff = 100_000

abbrev pub maximum_backoff : ℕ
maximum_backoff = 5_000_000

abbrev pub next_backoff : ℕ → ℕ
next_backoff backoff = if ltb maximum_backoff (backoff * 2) then maximum_backoff else backoff * 2

-- The message of a payload.
pub record Message : Type 0 where
  pub id : ℕ
  pub owner : String

-- A payload that json read, if it did.
abbrev pub publish_message : Option Message → Hub → Hub
publish_message none hub = hub
publish_message (some message) hub =
    if message.id == 0 || str_eq message.owner "" then hub else publish message.owner message.id hub

-- One turn of the loop of `reconnect`: the sleep was cut off by the context, the connection or
-- the LISTEN on it failed, or both succeeded.
pub data Attempt : Type 0 where
  sleep_cancelled connect_failed listen_failed connected : Attempt

-- How far a reconnection got with the attempts that were made.
pub data Reconnection : Type 0 where
  reconnected gave_up trying : Reconnection

-- The delays that it slept, and where it ended.
unfoldable pub reconnect_from : ℕ → List Attempt → List ℕ × Reconnection
reconnect_from backoff [] = ([], trying)
reconnect_from backoff (sleep_cancelled ∷ attempts) = (backoff ∷ [], gave_up)
reconnect_from backoff (connected ∷ attempts) = (backoff ∷ [], reconnected)
reconnect_from backoff (_ ∷ attempts) =
    let (delays, end) = reconnect_from (next_backoff backoff) attempts in (backoff ∷ delays, end)

unfoldable pub reconnect : List Attempt → List ℕ × Reconnection
unfolding reconnect_from
reconnect attempts = reconnect_from initial_backoff attempts

-- What `WaitForNotification` answers: a notification with its payload, or an error, with whether
-- the context was cancelled and the attempts that the reconnection makes otherwise.
pub data Wake : Type 0 where
  notified : Option String → Wake
  broken : Bool → List Attempt → Wake

-- Whether the loop still waits, still reconnects, or has returned and closed `done`.
pub data RunState : Type 0 where
  waiting reconnecting returned : RunState

-- Where the loop stands after a reconnection, given what it does with a new connection.
abbrev pub after_reconnect : Reconnection → Hub → Hub × RunState → Hub × RunState
after_reconnect reconnected hub rest = rest
after_reconnect gave_up hub rest = (hub, returned)
after_reconnect trying hub rest = (hub, reconnecting)

module _ (unmarshal : String → Option Message) where
  -- `publish`: a nil notification, and a payload that is no message, are dropped.
  unfoldable pub publish_notification : Option String → Hub → Hub
  publish_notification none hub = hub
  publish_notification (some payload) hub = publish_message (unmarshal payload) hub

  unfoldable pub run : List Wake → Hub → Hub × RunState
  unfolding publish_notification reconnect
  run [] hub = (hub, waiting)
  run (notified notification ∷ wakes) hub = run wakes (publish_notification notification hub)
  run (broken true attempts ∷ wakes) hub = (hub, returned)
  run (broken false attempts ∷ wakes) hub =
      after_reconnect (reconnect attempts).1 hub (run wakes hub)

-- The fields under the mutex. A context's cancel function and a channel `done` are named by the
-- number of the start that made them; `cancelled` and `closed` are those that were called or closed.
pub record Listener : Type 0 where
  pub started : Bool
  pub current : Option ℕ
  pub next : ℕ
  pub cancelled : List ℕ
  pub closed : List ℕ

abbrev pub new_listener : Listener
new_listener = record { started = false; current = none; next = 0; cancelled = []; closed = [] }

-- The first critical section of `Start`.
unfoldable pub begin_start : Listener → Result ℕ × Listener
begin_start l =
    if l.started
    then (err (foreign "notification listener already started"), l)
    else (ok l.next, record l { started = true; current = some l.next; next = l.next + 1 })

abbrev pub is_current : ℕ → Option ℕ → Bool
is_current done none = false
is_current done (some current) = current == done

unfoldable pub finish_failed_start : ℕ → Listener → Listener
finish_failed_start done l =
    let closed_too = done ∷ l.closed in
    if is_current done l.current
    then record l { started = false; current = none; closed = closed_too }
    else record l { closed = closed_too }

abbrev pub cancel : ℕ → Listener → Listener
cancel start l = record l { cancelled = start ∷ l.cancelled }

-- What connecting and the LISTEN answer: the connection fails, the context is found cancelled
-- after it, the LISTEN fails, the context is found cancelled after it, or all is well.
pub data Connecting : Type 0 where
  connect_error cancelled_connect listen_error cancelled_listen listening : Connecting

-- What `Start` does after its first critical section. The context that was found cancelled needs
-- no call of cancel.
unfoldable pub finish_start : ℕ → Connecting → Listener → Result (Unit {0}) × Listener
unfolding finish_failed_start
finish_start start connect_error l =
    (err (foreign "connect notification listener"), finish_failed_start start (cancel start l))
finish_start start cancelled_connect l =
    (err (foreign "connect notification listener"), finish_failed_start start l)
finish_start start listen_error l =
    (err (foreign "listen for balance notifications"), finish_failed_start start (cancel start l))
finish_start start cancelled_listen l =
    (err (foreign "listen for balance notifications"), finish_failed_start start l)
finish_start start listening l = (ok tt, l)

-- The critical section of `Stop`, and its call of cancel: the channel that it waits on, if any.
unfoldable pub begin_stop : Listener → Option ℕ × Listener
begin_stop l =
    if l.started
    then elim l.current [ none ↦ (none, l) | some start ↦ (some start, cancel start l) ]
    else (none, l)

-- `run` closes its channel when it returns.
abbrev pub run_returns : ℕ → Listener → Listener
run_returns start l = record l { closed = start ∷ l.closed }
