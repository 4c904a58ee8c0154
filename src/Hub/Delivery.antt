-- ===== src/Hub/Delivery.antt =====
-- internal/notification/hub.go: `Publish` and the subscribers of its owner.
use simplebank.Prelude.{
  inr, inl, ap, ◌∙◌, find?-update_where_kept, length, eq_iff, ltb, find?_holds, Bool-cases, refl,
  [], arith, ◌∷◌, not, select, str_eq, List, if◌then◌else◌, none, some, ◌≡◌, find?, ℕ, String,
}
use simplebank.Hub.{
  subscriber_buffer, owned_by, offer, subscriber_is, Subscriber, Hub, unsubscribe, publish,
}

offer_keeps :
    (owner : String) (number id : ℕ) (s : Subscriber)
    → subscriber_is owner number (offer id s) ≡ subscriber_is owner number s
offer_keeps owner number id s = elim (Bool-cases (ltb (length s.buffer) subscriber_buffer)) [
  | inl room ↦ rw room
  | inr full ↦ rw full
]

-- A published id is offered, after what waits already, to every subscriber of its owner, and to
-- no other: it is skipped only where 16 ids wait.
pub publish_reaches_owner :
    (owner other : String) (id number : ℕ) (h : Hub) (s : Subscriber)
    → find? (subscriber_is other number) h.subscribers ≡ some s
    → find? (subscriber_is other number) (publish owner id h).subscribers
      ≡ some (if str_eq other owner then offer id s else s)
unfolding publish
publish_reaches_owner owner other id number h s found =
    find?-update_where_kept (owned_by owner) (subscriber_is other number) (offer id)
      (offer_keeps other number id) h.subscribers s found
    ∙ ap (λ o. some (if str_eq o owner then offer id s else s)) same_owner
  where
    same_owner : s.owner ≡ other
    same_owner =
        let named = find?_holds (subscriber_is other number) h.subscribers s found in
        (eq_iff s.owner other).0 (ground (arith, named))

-- A stream that has unsubscribed is in the hub no more.
pub unsubscribed_is_gone :
    (owner : String) (number : ℕ) (h : Hub)
    → find? (subscriber_is owner number) (unsubscribe owner number h).subscribers ≡ none
unfolding unsubscribe
unsubscribed_is_gone owner number h = gone h.subscribers
  where
    gone :
        (rows : List Subscriber)
        → find? (subscriber_is owner number) (select (λ s. not (subscriber_is owner number s)) rows)
          ≡ none
    gone [] = refl
    gone (t ∷ rows) = ground (arith, gone rows)
