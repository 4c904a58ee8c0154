-- ===== src/Listener/Shapes.antt =====
-- internal/notification/listener.go: the shapes of a listener, and the steps that keep them.
use simplebank.Listener.System.{without, Distinct, System, is}
use simplebank.Errors.{ok}
use simplebank.Listener.{finish_failed_start, Listener, begin_start, begin_stop}
use simplebank.Prelude.{
  Option-cases, inl, inr, ap, ==_iff, Bool-cases, subst₂, ◌+◌, refl, sym, subst, arith, ◌≡◌, ◌<◌, ℕ,
  true, false, none, some, List, [], ◌∷◌, exists, All,
}

-- The four shapes of a listener and its threads.
pub data Shape (l : Listener) (connecting running : List ℕ) : Type 0 where
  stopped :
      l.started ≡ false
      → l.current ≡ none
      → connecting ≡ []
      → running ≡ []
      → Shape l connecting running
  opening :
      (n : ℕ)
      → l.started ≡ true
      → l.current ≡ some n
      → connecting ≡ n ∷ []
      → running ≡ []
      → exists (is n) l.closed ≡ false
      → n < l.next
      → Shape l connecting running
  looping :
      (n : ℕ)
      → l.started ≡ true
      → l.current ≡ some n
      → connecting ≡ []
      → running ≡ n ∷ []
      → exists (is n) l.closed ≡ false
      → n < l.next
      → Shape l connecting running
  ended :
      (n : ℕ)
      → l.started ≡ true
      → l.current ≡ some n
      → connecting ≡ []
      → running ≡ []
      → Shape l connecting running

pub record Inv (s : System) : Type 0 where
  pub shape : Shape s.listener s.connecting s.running
  pub distinct : Distinct s.listener.closed
  pub old : All (λ n. n < s.listener.next) s.listener.closed

fresh_next : (next : ℕ) (ns : List ℕ) → All (λ n. n < next) ns → exists (is next) ns ≡ false
fresh_next next [] h = refl
fresh_next next (n ∷ ns) h = ground (arith, h.0, fresh_next next ns h.1)

older : (next : ℕ) (ns : List ℕ) → All (λ n. n < next) ns → All (λ n. n < next + 1) ns
older next [] h = tt
older next (n ∷ ns) h = (omega (arith, h.0), older next ns h.1)

pub only : (n m : ℕ) (ns : List ℕ) → ns ≡ m ∷ [] → exists (is n) ns ≡ true → n ≡ m
only n m ns e h = ground arith

pub emptied : (n m : ℕ) (ns : List ℕ) → ns ≡ m ∷ [] → exists (is n) ns ≡ true → without n ns ≡ []
emptied n m ns e h = ground arith

pub not_in_empty : (n : ℕ) (ns : List ℕ) → ns ≡ [] → exists (is n) ns ≡ true → ⊥
not_in_empty n ns e h = ground arith

begin_start-ok :
    (l l' : Listener) (n : ℕ)
    → begin_start l ≡ (ok n, l')
    → (l.started ≡ false)
      × (n ≡ l.next)
      × (l' ≡ record l { started = true; current = some l.next; next = l.next + 1 })
unfolding begin_start
begin_start-ok l l' n h = ground arith

pub finish_failed_start-current :
    (n : ℕ) (l : Listener)
    → l.current ≡ some n
    → finish_failed_start n l ≡ record l { started = false; current = none; closed = n ∷ l.closed }
unfolding finish_failed_start
finish_failed_start-current n l e = ground (arith, (==_iff n n).1 refl)

pub starts-Inv :
    (s : System) (l : Listener) (n : ℕ)
    → begin_start s.listener ≡ (ok n, l)
    → Inv s
    → Inv (record s { listener = l; connecting = n ∷ s.connecting })
starts-Inv s l n h inv =
    let (off, named, state) = begin_start-ok s.listener l n h in go inv.shape off named state
  where
    go :
        Shape s.listener s.connecting s.running
        → s.listener.started ≡ false
        → n ≡ s.listener.next
        → l ≡ record s.listener {
          started = true;
          current = some s.listener.next;
          next = s.listener.next + 1;
        }
        → Inv (record s { listener = l; connecting = n ∷ s.connecting })
    go (opening _ on _ _ _ _ _) off named state = absurd (cc (on, off))
    go (looping _ on _ _ _ _ _) off named state = absurd (cc (on, off))
    go (ended _ on _ _ _) off named state = absurd (cc (on, off))
    go (stopped _ _ empty idle) off named state =
        subst₂
          (λ (k : ℕ) (m : Listener). Inv (record s { listener = m; connecting = k ∷ s.connecting }))
          (sym named) (sym state)
          (record {
            shape =
                opening s.listener.next refl refl (ap (λ ns. s.listener.next ∷ ns) empty) idle
                  (fresh_next s.listener.next s.listener.closed inv.old) (omega arith);
            distinct = inv.distinct;
            old = older s.listener.next s.listener.closed inv.old;
          })

begin_stop-cancels :
    (l : Listener) → (ns : List ℕ) × ((begin_stop l).1 ≡ record l { cancelled = ns })
unfolding begin_stop
begin_stop-cancels l = elim (Bool-cases l.started) [
  | inr off ↦ (l.cancelled, rw off)
  | inl on ↦ elim (Option-cases l.current) [
    | inl nothing ↦ (l.cancelled, ground arith)
    | inr (n, at) ↦ (n ∷ l.cancelled, ground arith)
  ]
]

-- Cancelling changes nothing that the shape speaks of.
cancelled-Shape :
    (l : Listener) (ns connecting running : List ℕ)
    → Shape l connecting running
    → Shape (record l { cancelled = ns }) connecting running
cancelled-Shape l ns connecting running (stopped a b c d) = stopped a b c d
cancelled-Shape l ns connecting running (opening n a b c d e f) = opening n a b c d e f
cancelled-Shape l ns connecting running (looping n a b c d e f) = looping n a b c d e f
cancelled-Shape l ns connecting running (ended n a b c d) = ended n a b c d

pub cancelled-Inv :
    (s : System) (ns : List ℕ)
    → Inv s
    → Inv (record s { listener = record s.listener { cancelled = ns } })
cancelled-Inv s ns inv = record {
  shape = cancelled-Shape s.listener ns s.connecting s.running inv.shape;
  distinct = inv.distinct;
  old = inv.old;
}

pub stops-Inv : (s : System) → Inv s → Inv (record s { listener = (begin_stop s.listener).1 })
stops-Inv s inv =
    let (ns, e) = begin_stop-cancels s.listener in
    subst (λ (m : Listener). Inv (record s { listener = m })) (sym e) (cancelled-Inv s ns inv)
