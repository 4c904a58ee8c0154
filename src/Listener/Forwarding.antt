-- ===== src/Listener/Forwarding.antt =====
-- internal/notification/listener.go: what `run` hands to the hub, across reconnections.
use simplebank.Hub.{Hub, publish}
use simplebank.Listener.{
  after_reconnect, Attempt, Message, Wake, notified, broken, waiting, reconnect, reconnected, run,
  publish_notification, publish_message,
}
use simplebank.Prelude.{
  inr, inl, sym, Bool-cases, ◌≡◌, ◌∙◌, ap, String, false, Option, none, some, List, [], ◌∷◌, ◌++◌,
  All, map, ◌==◌, ◌||◌, str_eq, if◌then◌else◌, refl,
}

-- The notifications of one connection, and the attempts of the reconnection after it was lost.
pub record Connection : Type 0 where
  pub notifications : List (Option String)
  pub attempts : List Attempt

-- What the driver answers over some connections that were lost, and a last one that is not.
abbrev pub script : List Connection → List (Option String) → List Wake
script [] last = map notified last
script (c ∷ cs) last = map notified c.notifications ++ (broken false c.attempts ∷ script cs last)

abbrev pub received : List Connection → List (Option String) → List (Option String)
received [] last = last
received (c ∷ cs) last = c.notifications ++ received cs last

-- A message has an id and an owner.
abbrev pub if_valid : Message → List Message → List Message
if_valid m ms = if m.id == 0 || str_eq m.owner "" then ms else m ∷ ms

module _ (unmarshal : String → Option Message) where
  abbrev pub messages : List (Option String) → List Message
  messages [] = []
  messages (none ∷ ns) = messages ns
  messages (some payload ∷ ns) =
      let rest = messages ns in elim (unmarshal payload) [ none ↦ rest | some m ↦ if_valid m rest ]

abbrev pub publish_all : List Message → Hub → Hub
publish_all [] hub = hub
publish_all (m ∷ ms) hub = publish_all ms (publish m.owner m.id hub)

module _ (unmarshal : String → Option Message) where
  published_one :
      (n : Option String) (ns : List (Option String)) (hub : Hub)
      → publish_all (messages unmarshal (n ∷ ns)) hub
        ≡ publish_all (messages unmarshal ns) (publish_notification unmarshal n hub)
  unfolding publish_notification
  published_one none ns hub = refl
  published_one (some payload) ns hub = go (unmarshal payload)
    where
      go :
          (r : Option Message)
          → publish_all
              (elim r [
                | none ↦ messages unmarshal ns
                | some m ↦ if_valid m (messages unmarshal ns)
              ])
              hub
            ≡ publish_all (messages unmarshal ns) (publish_message r hub)
      go none = refl
      go (some m) = elim (Bool-cases (m.id == 0 || str_eq m.owner "")) [
        | inl bad ↦ rw bad
        | inr good ↦ rw good
      ]

  -- The notifications of one connection, whatever comes after it.
  run-notified :
      (ns : List (Option String)) (wakes : List Wake) (hub : Hub)
      → run unmarshal (map notified ns ++ wakes) hub
        ≡ run unmarshal wakes (publish_all (messages unmarshal ns) hub)
  unfolding run
  run-notified [] wakes hub = refl
  run-notified (n ∷ ns) wakes hub =
      run-notified ns wakes (publish_notification unmarshal n hub)
      ∙ ap (run unmarshal wakes) (sym (published_one n ns hub))

  run_last :
      (ns : List (Option String)) (hub : Hub)
      → run unmarshal (map notified ns) hub ≡ (publish_all (messages unmarshal ns) hub, waiting)
  unfolding run
  run_last [] hub = refl
  run_last (n ∷ ns) hub =
      run_last ns (publish_notification unmarshal n hub)
      ∙ ap (λ h. (h, waiting)) (sym (published_one n ns hub))

  publish_all-messages :
      (ns ms : List (Option String)) (hub : Hub)
      → publish_all (messages unmarshal (ns ++ ms)) hub
        ≡ publish_all (messages unmarshal ms) (publish_all (messages unmarshal ns) hub)
  publish_all-messages [] ms hub = refl
  publish_all-messages (n ∷ ns) ms hub =
      published_one n (ns ++ ms) hub
      ∙ publish_all-messages ns ms (publish_notification unmarshal n hub)
      ∙ ap (publish_all (messages unmarshal ms)) (sym (published_one n ns hub))

-- Reconnections lose nothing that was received and add nothing: if every reconnection ends with a
-- connection, then after any number of lost connections the listener waits on, and the hub is as
-- if exactly the valid messages among all the notifications received had been published, each
-- once and in the order in which they came.
pub run_forwards :
    (unmarshal : String → Option Message) (lost : List Connection) (last : List (Option String))
    (hub : Hub)
    → All (λ c. (reconnect c.attempts).1 ≡ reconnected) lost
    → run unmarshal (script lost last) hub
      ≡ (publish_all (messages unmarshal (received lost last)) hub, waiting)
unfolding run
run_forwards unmarshal [] last hub h = run_last unmarshal last hub
run_forwards unmarshal (c ∷ cs) last hub h =
    run-notified unmarshal c.notifications (broken false c.attempts ∷ script cs last) hub
    ∙ ap
        (λ r.
          after_reconnect r (publish_all (messages unmarshal c.notifications) hub)
            (run unmarshal (script cs last) (publish_all (messages unmarshal c.notifications) hub)))
        h.0
    ∙ run_forwards unmarshal cs last (publish_all (messages unmarshal c.notifications) hub) h.1
    ∙ ap (λ x. (x, waiting))
        (sym (publish_all-messages unmarshal c.notifications (received cs last) hub))
