-- ===== src/Listener/System.antt =====
-- internal/notification/listener.go: Start, Stop and the loop, interleaved at the mutex.
use simplebank.Errors.{ok}
use simplebank.Listener.{
  listening, Listener, new_listener, begin_start, finish_start, begin_stop, run_returns, Connecting,
}
use simplebank.Prelude.{◌≡◌, ◌==◌, ℕ, Bool, true, false, not, List, [], ◌∷◌, exists, select}

-- The listener, the starts that are connecting, and the loops that have not returned.
pub record System : Type 0 where
  pub listener : Listener
  pub connecting : List ℕ
  pub running : List ℕ

abbrev pub is : ℕ → ℕ → Bool
is a b = a == b

abbrev pub without : ℕ → List ℕ → List ℕ
without a = select (λ b. not (is a b))

abbrev pub loops_after : Connecting → ℕ → List ℕ → List ℕ
loops_after listening n running = n ∷ running
loops_after _ n running = running

-- One step of some thread: a critical section with what follows it up to the next one.
pub data Step : System → System → Type 0 where
  starts :
      {s : System} {l : Listener} (n : ℕ)
      → begin_start s.listener ≡ (ok n, l)
      → Step s (record s { listener = l; connecting = n ∷ s.connecting })
  connects :
      {s : System} (n : ℕ) (answer : Connecting)
      → exists (is n) s.connecting ≡ true
      → Step s (record {
        listener = (finish_start n answer s.listener).1;
        connecting = without n s.connecting;
        running = loops_after answer n s.running;
      })
  stops : {s : System} → Step s (record s { listener = (begin_stop s.listener).1 })
  returns :
      {s : System} (n : ℕ)
      → exists (is n) s.running ≡ true
      → Step s (record s { listener = run_returns n s.listener; running = without n s.running })

pub data Reach : System → Type 0 where
  here : Reach (record { listener = new_listener; connecting = []; running = [] })
  later : {s t : System} → Reach s → Step s t → Reach t

-- No number stands twice in a list.
abbrev pub Distinct : List ℕ → Type 0
Distinct [] = Unit
Distinct (n ∷ ns) = (exists (is n) ns ≡ false) × Distinct ns
