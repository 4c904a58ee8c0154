-- ===== src/Listener/Lifecycle.antt =====
-- internal/notification/listener.go: every step of Start, Stop and the loop.
use simplebank.Listener.Shapes.{
  emptied, finish_failed_start-current, only, ended, stops-Inv, looping, cancelled-Inv, starts-Inv,
  not_in_empty, Inv, stopped, Shape, opening,
}
use simplebank.Listener.System.{
  stops, returns, connects, loops_after, later, starts, without, Distinct, Reach, Step, is, System,
  here,
}
use simplebank.Listener.{
  connect_error, cancelled_connect, listen_error, cancelled_listen, listening, cancel,
  finish_failed_start, Listener, finish_start, run_returns, Connecting,
}
use simplebank.Prelude.{
  leb, ◌||◌, ◌≤◌, ◌∙◌, ap, length, ap₂, ◌+◌, refl, sym, subst, arith, ◌≡◌, ◌<◌, ℕ, true, false,
  some, List, ◌∷◌, exists,
}

-- A failed start closes its channel and leaves a listener that can be started again.
failed-Inv :
    (s : System) (n : ℕ)
    → exists (is n) s.connecting ≡ true
    → Inv s
    → Inv (record s {
      listener = finish_failed_start n s.listener;
      connecting = without n s.connecting;
    })
failed-Inv s n h inv = go inv.shape
  where
    go :
        Shape s.listener s.connecting s.running
        → Inv (record s {
          listener = finish_failed_start n s.listener;
          connecting = without n s.connecting;
        })
    go (stopped _ _ e _) = absurd (not_in_empty n s.connecting e h)
    go (looping _ _ _ e _ _ _) = absurd (not_in_empty n s.connecting e h)
    go (ended _ _ _ e _) = absurd (not_in_empty n s.connecting e h)
    go (opening m on at e idle new fits) =
        let same = only n m s.connecting e h in
        subst
          (λ (l : Listener). Inv (record s { listener = l; connecting = without n s.connecting }))
          (sym (finish_failed_start-current n s.listener (at ∙ ap some (sym same))))
          (record {
            shape = stopped refl refl (emptied n m s.connecting e h) idle;
            distinct =
                (subst (λ k. exists (is k) s.listener.closed ≡ false) (sym same) new, inv.distinct);
            old = (subst (λ k. k < s.listener.next) (sym same) fits, inv.old);
          })

listening-Inv :
    (s : System) (n : ℕ)
    → exists (is n) s.connecting ≡ true
    → Inv s
    → Inv (record s { connecting = without n s.connecting; running = n ∷ s.running })
listening-Inv s n h inv = go inv.shape
  where
    go :
        Shape s.listener s.connecting s.running
        → Inv (record s { connecting = without n s.connecting; running = n ∷ s.running })
    go (stopped _ _ e _) = absurd (not_in_empty n s.connecting e h)
    go (looping _ _ _ e _ _ _) = absurd (not_in_empty n s.connecting e h)
    go (ended _ _ _ e _) = absurd (not_in_empty n s.connecting e h)
    go (opening m on at e idle new fits) =
        let same = only n m s.connecting e h in
        record {
          shape =
              looping m on at (emptied n m s.connecting e h) (ap₂ (λ k ns. k ∷ ns) same idle) new
                fits;
          distinct = inv.distinct;
          old = inv.old;
        }

connects-Inv :
    (s : System) (n : ℕ) (answer : Connecting)
    → exists (is n) s.connecting ≡ true
    → Inv s
    → Inv (record {
      listener = (finish_start n answer s.listener).1;
      connecting = without n s.connecting;
      running = loops_after answer n s.running;
    })
unfolding finish_start
connects-Inv s n connect_error h inv =
    failed-Inv (record s { listener = cancel n s.listener }) n h
      (cancelled-Inv s (n ∷ s.listener.cancelled) inv)
connects-Inv s n cancelled_connect h inv = failed-Inv s n h inv
connects-Inv s n listen_error h inv =
    failed-Inv (record s { listener = cancel n s.listener }) n h
      (cancelled-Inv s (n ∷ s.listener.cancelled) inv)
connects-Inv s n cancelled_listen h inv = failed-Inv s n h inv
connects-Inv s n listening h inv = listening-Inv s n h inv

returns-Inv :
    (s : System) (n : ℕ)
    → exists (is n) s.running ≡ true
    → Inv s
    → Inv (record s { listener = run_returns n s.listener; running = without n s.running })
returns-Inv s n h inv = go inv.shape
  where
    go :
        Shape s.listener s.connecting s.running
        → Inv (record s { listener = run_returns n s.listener; running = without n s.running })
    go (stopped _ _ _ e) = absurd (not_in_empty n s.running e h)
    go (opening _ _ _ _ e _ _) = absurd (not_in_empty n s.running e h)
    go (ended _ _ _ _ e) = absurd (not_in_empty n s.running e h)
    go (looping m on at none_opening e new fits) =
        let same = only n m s.running e h in
        record {
          shape = ended m on at none_opening (emptied n m s.running e h);
          distinct =
              (subst (λ k. exists (is k) s.listener.closed ≡ false) (sym same) new, inv.distinct);
          old = (subst (λ k. k < s.listener.next) (sym same) fits, inv.old);
        }

Step-Inv : {s t : System} → Step s t → Inv s → Inv t
Step-Inv {s} (starts {l} n h) inv = starts-Inv s l n h inv
Step-Inv {s} (connects n answer h) inv = connects-Inv s n answer h inv
Step-Inv {s} stops inv = stops-Inv s inv
Step-Inv {s} (returns n h) inv = returns-Inv s n h inv

Reach-Inv : {s : System} → Reach s → Inv s
Reach-Inv here = record { shape = stopped refl refl refl refl; distinct = tt; old = tt }
Reach-Inv (later r st) = Step-Inv st (Reach-Inv r)

one_thread :
    (l : Listener) (cs rs : List ℕ)
    → Shape l cs rs
    → (length cs + length rs ≤ 1) × ((l.started || leb (length cs + length rs) 0) ≡ true)
one_thread l cs rs (stopped a b c d) = (ground (arith, c, d), ground (arith, c, d))
one_thread l cs rs (opening n a b c d e f) = (ground (arith, c, d), ground arith)
one_thread l cs rs (looping n a b c d e f) = (ground (arith, c, d), ground arith)
one_thread l cs rs (ended n a b c d) = (ground (arith, c, d), ground arith)

-- However Start, Stop and the loops interleave at the mutex, no channel `done` is closed twice,
-- which would panic; at most one start is connecting or one loop running; and while the listener
-- is not started, neither is there.
pub channels_close_once :
    {s : System}
    → Reach s
    → Distinct s.listener.closed
      × (length s.connecting + length s.running ≤ 1)
      × ((s.listener.started || leb (length s.connecting + length s.running) 0) ≡ true)
channels_close_once {s} r =
    let inv = Reach-Inv r in
    let (one, idle) = one_thread s.listener s.connecting s.running inv.shape in
    (inv.distinct, one, idle)
