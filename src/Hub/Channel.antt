-- ===== src/Hub/Channel.antt =====
-- internal/notification/hub.go: what waits in a subscriber's channel after calls of others.
use simplebank.Hub.{
  subscriber_buffer, publish, taken, receive, unsubscribe, subscriber_is, subscribe, offer, Hub,
  Subscriber,
}
use simplebank.Hub.Delivery.{publish_reaches_owner}
use simplebank.Hub.Invariant.{
  hub_run, subscribes, hub_step, Event, unsubscribes, receives, publishes,
}
use simplebank.Prelude.{
  ltb, find?-update_where_other, ◌∙◌, sym, eq_iff, inl, ◌^◌, inr, ◌<◌, some, Bool-cases, arith,
  refl, select, false, find?, ap, subst, ◌≡◌, ℕ, ◌+◌, ◌==◌, String, str_eq, Bool, true, not, ◌&&◌,
  List, [], ◌∷◌, ◌++◌, length, if◌then◌else◌,
}

-- The first list is the second with some of its elements left out, in the same order.
pub data Within : List ℕ → List ℕ → Type 0 where
  ended : {ys : List ℕ} → Within [] ys
  kept : {x : ℕ} {xs ys : List ℕ} → Within xs ys → Within (x ∷ xs) (x ∷ ys)
  skipped : {y : ℕ} {xs ys : List ℕ} → Within xs ys → Within xs (y ∷ ys)

all_kept : (xs : List ℕ) → Within xs xs
all_kept [] = ended
all_kept (x ∷ xs) = kept (all_kept xs)

with_prefix : (xs : List ℕ) {ys zs : List ℕ} → Within ys zs → Within (xs ++ ys) (xs ++ zs)
with_prefix [] w = w
with_prefix (x ∷ xs) w = kept (with_prefix xs w)

-- The ids that are published to an owner.
abbrev pub published : String → List Event → List ℕ
published owner [] = []
published owner (publishes o id ∷ es) =
    if str_eq owner o then id ∷ published owner es else published owner es
published owner (_ ∷ es) = published owner es

-- Calls of the hub that are not those of a stream of its own. The numbers of new streams differ.
module _ (owner : String) (number : ℕ) where
  abbrev pub is_foreign : Event → Bool
  is_foreign (unsubscribes o n) = not (str_eq o owner && n == number)
  is_foreign (receives o n) = not (str_eq o owner && n == number)
  is_foreign _ = true

  abbrev pub are_foreign : List Event → Bool
  are_foreign [] = true
  are_foreign (e ∷ es) = is_foreign e && are_foreign es

-- Lists within others.
append_assoc : (xs ys zs : List ℕ) → (xs ++ ys) ++ zs ≡ xs ++ (ys ++ zs)
append_assoc [] ys zs = refl
append_assoc (x ∷ xs) ys zs = ap (λ l. x ∷ l) (append_assoc xs ys zs)

in_front : (xs ys : List ℕ) → Within xs (xs ++ ys)
in_front [] ys = ended
in_front (x ∷ xs) ys = kept (in_front xs ys)

behind : (ys zs : List ℕ) → Within zs (ys ++ zs)
behind [] zs = all_kept zs
behind (y ∷ ys) zs = skipped (behind ys zs)

chain : {xs ys zs : List ℕ} → Within xs ys → Within ys zs → Within xs zs
chain ended b = ended
chain (kept a) (kept b) = kept (chain a b)
chain (skipped a) (kept b) = skipped (chain a b)
chain (kept a) (skipped b) = skipped (chain (kept a) b)
chain (skipped a) (skipped b) = skipped (chain (skipped a) b)

extended : {xs ys : List ℕ} (zs : List ℕ) → Within xs ys → Within (xs ++ zs) (ys ++ zs)
extended {ys = ys} zs ended = behind ys zs
extended zs (kept w) = kept (extended zs w)
extended zs (skipped w) = skipped (extended zs w)

pub chained :
    (xs ys zs p q : List ℕ) → Within xs (ys ++ q) → Within ys (zs ++ p) → Within xs (zs ++ (p ++ q))
chained xs ys zs p q a b = subst (Within xs) (append_assoc zs p q) (chain a (extended q b))

find?-select :
    (q keep : Subscriber → Bool)
    → ((x : Subscriber) → q x ≡ true → keep x ≡ true)
    → (xs : List Subscriber) → find? q (select keep xs) ≡ find? q xs
find?-select q keep h [] = refl
find?-select q keep h (x ∷ xs) = ground (arith, h x, find?-select q keep h xs)

-- A subscriber is not that of two streams.
apart :
    (owner o : String) (number n : ℕ) (x : Subscriber)
    → (str_eq o owner && n == number) ≡ false
    → subscriber_is owner number x ≡ true
    → subscriber_is o n x ≡ false
apart owner o number n x other mine = elim (Bool-cases (subscriber_is o n x)) [
  | inr theirs ↦ theirs
  | inl both ↦
      let named = (eq_iff x.owner owner).0 (ground (arith, mine)) in
      let also = (eq_iff x.owner o).0 (ground (arith, both)) in
      let same = (eq_iff o owner).1 (sym also ∙ named) in ground (arith, same, mine, both, other)
]

module _ (owner : String) (number : ℕ) where
  -- The stream's channel after calls of others.
  pub record Waiting (h : Hub) (s : Subscriber) (ids : List ℕ) (calls : ℕ) (h' : Hub) : Type 0 where
    pub row : Subscriber
    pub found : find? (subscriber_is owner number) h'.subscribers ≡ some row
    pub waits : Within row.buffer (s.buffer ++ ids)
    pub above : number < h'.next_id
    pub few : h'.next_id < h.next_id + calls + 1

  offered_kept :
      (o : String) (id : ℕ) (s : Subscriber)
      → Within
          (if str_eq owner o then offer id s else s).buffer
          (s.buffer ++ published owner (publishes o id ∷ []))
  offered_kept o id s = elim (Bool-cases (str_eq owner o)) [
    | inr other ↦ rw other (in_front s.buffer [])
    | inl mine ↦ rw mine (elim (Bool-cases (ltb (length s.buffer) subscriber_buffer)) [
      | inl room ↦ rw room (all_kept (s.buffer ++ (id ∷ [])))
      | inr full ↦ rw full (in_front s.buffer (id ∷ []))
    ])
  ]

  theirs_not_mine :
      (o : String) (n : ℕ) (x : Subscriber)
      → not (str_eq o owner && n == number) ≡ true
      → subscriber_is o n x ≡ true
      → (subscriber_is owner number x ≡ false) × (subscriber_is owner number (taken x) ≡ false)
  theirs_not_mine o n x f theirs = elim (Bool-cases (subscriber_is owner number x)) [
    | inr no_row ↦ (no_row, no_row)
    | inl mine ↦ absurd (cc (apart owner o number n x (ground (arith, f)) mine, theirs))
  ]

  step_kept :
      (e : Event) (h : Hub) (s : Subscriber)
      → is_foreign owner number e ≡ true
      → number < h.next_id
      → h.next_id + 1 < 2 ^ 64
      → find? (subscriber_is owner number) h.subscribers ≡ some s
      → Waiting h s (published owner (e ∷ [])) 1 (hub_step e h)
  unfolding hub_step subscribe unsubscribe receive publish
  step_kept (subscribes o) h s f low small found = record {
    row = s;
    found = ground (arith, found);
    waits = in_front s.buffer [];
    above = omega arith;
    few = omega arith;
  }
  step_kept (unsubscribes o n) h s f low small found = record {
    row = s;
    found =
        find?-select (subscriber_is owner number) (λ x. not (subscriber_is o n x))
          (λ x mine. ground (arith, apart owner o number n x (ground arith) mine)) h.subscribers
        ∙ found;
    waits = in_front s.buffer [];
    above = low;
    few = omega arith;
  }
  step_kept (receives o n) h s f low small found = record {
    row = s;
    found =
        find?-update_where_other (subscriber_is o n) (subscriber_is owner number) taken
          (λ x theirs. theirs_not_mine o n x f theirs) h.subscribers
        ∙ found;
    waits = in_front s.buffer [];
    above = low;
    few = omega arith;
  }
  step_kept (publishes o id) h s f low small found = record {
    row = if str_eq owner o then offer id s else s;
    found = publish_reaches_owner o owner id number h s found;
    waits = offered_kept o id s;
    above = low;
    few = omega arith;
  }

  pub calls_kept :
      (es : List Event) (h : Hub) (s : Subscriber)
      → are_foreign owner number es ≡ true
      → number < h.next_id
      → h.next_id + length es < 2 ^ 64
      → find? (subscriber_is owner number) h.subscribers ≡ some s
      → Waiting h s (published owner es) (length es) (hub_run es h)
  unfolding hub_run
  calls_kept [] h s f low small found = record {
    row = s;
    found = found;
    waits = in_front s.buffer [];
    above = low;
    few = omega arith;
  }
  calls_kept (e ∷ es) h s f low small found =
      let one = step_kept e h s (ground arith) low (omega arith) found in
      let rest =
        calls_kept es (hub_step e h) one.row (ground arith) one.above (omega (arith, one.few))
          one.found in
      record {
        row = rest.row;
        found = rest.found;
        waits =
            subst (λ ids. Within rest.row.buffer (s.buffer ++ ids)) (published-cons e es)
              (chained rest.row.buffer one.row.buffer s.buffer (published owner (e ∷ []))
                (published owner es) rest.waits one.waits);
        above = rest.above;
        few = omega (arith, one.few, rest.few);
      }
    where
      published-cons :
          (e : Event) (es : List Event)
          → published owner (e ∷ []) ++ published owner es ≡ published owner (e ∷ es)
      published-cons (publishes o id) es = ground arith
      published-cons (subscribes o) es = refl
      published-cons (unsubscribes o n) es = refl
      published-cons (receives o n) es = refl
