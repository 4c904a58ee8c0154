-- ===== src/Hub.antt =====
-- internal/notification/hub.go: the subscriptions of the event streams. Every method holds the
-- mutex from its first access to its last, so that it is one step. The map of maps is the list
-- of its subscribers, each with its owner and its number; an owner without subscribers has no
-- inner map. A channel is its buffer, the oldest value first.
pub mod Delivery
pub mod Channel
pub mod Invariant
use simplebank.Prelude.{
  ◌++◌, ◌==◌, ◌∷◌, ◌^◌, ◌&&◌, length, ◌%◌, ltb, not, str_eq, ◌+◌, drop, update_where, if◌then◌else◌,
  select, Bool, [], List, ℕ, String,
}

abbrev pub subscriber_buffer : ℕ
subscriber_buffer = 16

pub record Subscriber : Type 0 where
  pub owner : String
  pub number : ℕ
  pub buffer : List ℕ

pub record Hub : Type 0 where
  pub next_id : ℕ
  pub subscribers : List Subscriber

abbrev pub new_hub : Hub
new_hub = record { next_id = 0; subscribers = [] }

abbrev pub subscriber_is : String → ℕ → Subscriber → Bool
subscriber_is owner number s = str_eq s.owner owner && s.number == number

abbrev pub owned_by : String → Subscriber → Bool
owned_by owner s = str_eq s.owner owner

abbrev pub fresh : String → ℕ → Subscriber
fresh owner number = record { owner = owner; number = number; buffer = [] }

-- The number of the new subscriber, and the hub. `nextID` is a uint64.
unfoldable pub subscribe : String → Hub → ℕ × Hub
subscribe owner h = (
  h.next_id,
  record {
    next_id = (h.next_id + 1) % 2 ^ 64;
    subscribers = fresh owner h.next_id ∷ h.subscribers;
  },
)

-- The function that `Subscribe` returns.
unfoldable pub unsubscribe : String → ℕ → Hub → Hub
unsubscribe owner number h = record h {
  subscribers = select (λ s. not (subscriber_is owner number s)) h.subscribers;
}

-- A send that is skipped when the buffer is full.
abbrev pub offer : ℕ → Subscriber → Subscriber
offer id s =
    if ltb (length s.buffer) subscriber_buffer
    then record s { buffer = s.buffer ++ (id ∷ []) }
    else s

unfoldable pub publish : String → ℕ → Hub → Hub
publish owner id h = record h {
  subscribers = update_where (owned_by owner) (offer id) h.subscribers;
}

-- The stream takes the oldest value out of its channel.
abbrev pub taken : Subscriber → Subscriber
taken s = record s { buffer = drop 1 s.buffer }

unfoldable pub receive : String → ℕ → Hub → Hub
receive owner number h = record h {
  subscribers = update_where (subscriber_is owner number) taken h.subscribers;
}
