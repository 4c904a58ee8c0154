-- ===== src/Hub/Invariant.antt =====
-- internal/notification/hub.go: sequences of its calls.
use simplebank.Prelude.{
  subst, not, ◌++◌, ◌^◌, ◌%◌, ◌∙◌, ltb, drop, update_where, ◌==◌, ◌+◌, ◌≤◌, refl, inr, length, inl,
  ◌<◌, arith, Bool-cases, false, select, ◌≡◌, [], exists, Bool, ◌∷◌, ℕ, List, String,
}
use simplebank.Hub.{
  fresh, owned_by, taken, subscriber_is, new_hub, offer, subscriber_buffer, receive, unsubscribe,
  Subscriber, subscribe, Hub, publish,
}

pub data Event : Type 0 where
  subscribes : String → Event
  unsubscribes receives : String → ℕ → Event
  publishes : String → ℕ → Event

unfoldable pub hub_step : Event → Hub → Hub
hub_step (subscribes owner) h = (subscribe owner h).1
hub_step (unsubscribes owner number) h = unsubscribe owner number h
hub_step (receives owner number) h = receive owner number h
hub_step (publishes owner id) h = publish owner id h

unfoldable pub hub_run : List Event → Hub → Hub
unfolding hub_step
hub_run [] h = h
hub_run (e ∷ es) h = hub_run es (hub_step e h)

-- No two subscribers share a number, all numbers were handed out, and no buffer overflows.
abbrev pub number_is : ℕ → Subscriber → Bool
number_is number s = s.number == number

abbrev pub WellNumbered : ℕ → List Subscriber → Type 0
WellNumbered next [] = Unit
WellNumbered next (s ∷ rows) =
    (exists (number_is s.number) rows ≡ false)
    × (s.number < next)
    × (length s.buffer ≤ subscriber_buffer)
    × WellNumbered next rows

-- All numbers are below a bound, so the bound is a new number.
bound_is_new :
    (next : ℕ) (rows : List Subscriber)
    → WellNumbered next rows
    → exists (number_is next) rows ≡ false
bound_is_new next [] w = refl
bound_is_new next (s ∷ rows) w = ground (arith, bound_is_new next rows)

higher : (next : ℕ) (rows : List Subscriber) → WellNumbered next rows → WellNumbered (next + 1) rows
higher next [] w = tt
higher next (s ∷ rows) (new, low, fits, rest) = (new, omega arith, fits, higher next rows rest)

exists-select :
    (number : ℕ) (p : Subscriber → Bool) (rows : List Subscriber)
    → exists (number_is number) rows ≡ false
    → exists (number_is number) (select p rows) ≡ false
exists-select number p [] e = refl
exists-select number p (s ∷ rows) e = ground (arith, exists-select number p rows)

select-WellNumbered :
    (next : ℕ) (p : Subscriber → Bool) (rows : List Subscriber)
    → WellNumbered next rows
    → WellNumbered next (select p rows)
select-WellNumbered next p [] w = tt
select-WellNumbered next p (s ∷ rows) (new, low, fits, rest) = elim (Bool-cases (p s)) [
  | inl keep ↦
      rw keep (exists-select s.number p rows new, low, fits, select-WellNumbered next p rows rest)
  | inr skip ↦ rw skip (select-WellNumbered next p rows rest)
]

-- A change of some rows that keeps the numbers and the bound of the buffers.
module _ (p : Subscriber → Bool) (f : Subscriber → Subscriber)
    (same : (s : Subscriber) → (f s).number ≡ s.number)
    (fit : (s : Subscriber)
      → length s.buffer ≤ subscriber_buffer
      → length (f s).buffer ≤ subscriber_buffer) where
  exists-update :
      (number : ℕ) (rows : List Subscriber)
      → exists (number_is number) (update_where p f rows) ≡ exists (number_is number) rows
  exists-update number [] = refl
  exists-update number (s ∷ rows) = ground (arith, same s, exists-update number rows)

  update-WellNumbered :
      (next : ℕ) (rows : List Subscriber)
      → WellNumbered next rows
      → WellNumbered next (update_where p f rows)
  update-WellNumbered next [] w = tt
  update-WellNumbered next (s ∷ rows) (new, low, fits, rest) = elim (Bool-cases (p s)) [
    | inl hit ↦ rw hit (
      rw (same s) (exists-update s.number rows ∙ new),
      rw (same s) low,
      fit s fits,
      update-WellNumbered next rows rest,
    )
    | inr miss ↦
        rw miss (exists-update s.number rows ∙ new, low, fits, update-WellNumbered next rows rest)
  ]

length-push : (xs : List ℕ) (x : ℕ) → length (xs ++ (x ∷ [])) ≡ length xs + 1
length-push [] x = refl
length-push (y ∷ ys) x = let rest = length-push ys x in omega arith

offer_number : (id : ℕ) (s : Subscriber) → (offer id s).number ≡ s.number
offer_number id s = elim (Bool-cases (ltb (length s.buffer) subscriber_buffer)) [
  | inl room ↦ rw room
  | inr full ↦ rw full
]

offer_fits :
    (id : ℕ) (s : Subscriber)
    → length s.buffer ≤ subscriber_buffer
    → length (offer id s).buffer ≤ subscriber_buffer
offer_fits id s h = elim (Bool-cases (ltb (length s.buffer) subscriber_buffer)) [
  | inl room ↦ rw room (rw (length-push s.buffer id) (ground arith))
  | inr full ↦ rw full h
]

length-drop_one : (xs : List ℕ) → length (drop 1 xs) ≤ length xs
length-drop_one [] = omega arith
length-drop_one (x ∷ xs) = omega arith

pub record IsHub (h : Hub) : Type 0 where
  pub numbered : WellNumbered h.next_id h.subscribers

hub_step-IsHub :
    (e : Event) (h : Hub)
    → h.next_id + 1 < 2 ^ 64
    → IsHub h
    → IsHub (hub_step e h) × ((hub_step e h).next_id ≤ h.next_id + 1)
unfolding hub_step subscribe unsubscribe receive publish
hub_step-IsHub (subscribes owner) h small w =
    let plain : h.next_id + 1 ≡ (h.next_id + 1) % 2 ^ 64 = omega arith in
    (
      record {
        numbered =
            subst (λ n. WellNumbered n (fresh owner h.next_id ∷ h.subscribers)) plain
              (
                bound_is_new h.next_id h.subscribers w.numbered,
                omega arith,
                omega arith,
                higher h.next_id h.subscribers w.numbered,
              );
      },
      omega arith,
    )
hub_step-IsHub (unsubscribes owner number) h small w = (
  record {
    numbered =
        select-WellNumbered h.next_id (λ s. not (subscriber_is owner number s)) h.subscribers
          w.numbered;
  },
  omega arith,
)
hub_step-IsHub (receives owner number) h small w = (
  record {
    numbered =
        update-WellNumbered (subscriber_is owner number) taken (λ s. refl)
          (λ s fits. let shorter = length-drop_one s.buffer in omega arith) h.next_id h.subscribers
          w.numbered;
  },
  omega arith,
)
hub_step-IsHub (publishes owner id) h small w = (
  record {
    numbered =
        update-WellNumbered (owned_by owner) (offer id) (offer_number id) (offer_fits id) h.next_id
          h.subscribers w.numbered;
  },
  omega arith,
)

from_here :
    (es : List Event) (h : Hub) → h.next_id + length es < 2 ^ 64 → IsHub h → IsHub (hub_run es h)
unfolding hub_run
from_here [] h small w = w
from_here (e ∷ es) h small w =
    let (next, bound) = hub_step-IsHub e h (omega arith) w in
    from_here es (hub_step e h) (omega arith) next

-- After fewer than 2^64 calls in any order, no two subscribers of the hub share a number, each
-- has a number that was handed out, and no more than 16 ids wait for any of them.
pub hub_run-IsHub : (es : List Event) → length es < 2 ^ 64 → IsHub (hub_run es new_hub)
hub_run-IsHub es small = from_here es new_hub (omega arith) (record { numbered = tt })
