-- ===== src/Listener/Backoff.antt =====
-- internal/notification/listener.go: the delays of `reconnect`.
use simplebank.Listener.{
  sleep_cancelled, Reconnection, Attempt, connect_failed, listen_failed, connected, initial_backoff,
  maximum_backoff, next_backoff, reconnect_from, reconnect, reconnected,
}
use simplebank.Prelude.{
  ◌≡◌, ◌∙◌, ◌*◌, ◌^◌, ◌≤◌, ◌⊎◌, ap, ℕ, zero, suc, List, [], ◌∷◌, ◌++◌, All, length, ltb,
  if◌then◌else◌, inl, inr, arith, refl,
}

-- The delay before an attempt: 100 ms, doubled with every attempt, and at most 5 seconds.
abbrev capped : ℕ → ℕ
capped d = if ltb maximum_backoff d then maximum_backoff else d

abbrev pub delay_at : ℕ → ℕ
delay_at i = capped (initial_backoff * 2 ^ i)

abbrev pub delays_from : ℕ → ℕ → List ℕ
delays_from i zero = delay_at i ∷ []
delays_from i (suc k) = delay_at i ∷ delays_from (suc i) k

-- An attempt after which the loop goes on.
abbrev pub IsFailure : Attempt → Type 0
IsFailure a = (a ≡ connect_failed) ⊎ (a ≡ listen_failed)

capped_doubles : (d : ℕ) → next_backoff (capped d) ≡ capped (d * 2)
capped_doubles d = ground arith

next_backoff-delay_at : (i : ℕ) → next_backoff (delay_at i) ≡ delay_at (suc i)
next_backoff-delay_at i =
    capped_doubles (initial_backoff * 2 ^ i)
    ∙ ap capped {x = initial_backoff * 2 ^ i * 2} {y = initial_backoff * 2 ^ suc i} (omega arith)

-- A failure, and the attempts after it.
after_failure : ℕ → List ℕ × Reconnection → List ℕ × Reconnection
after_failure i (delays, end) = (delay_at i ∷ delays, end)

reconnects-from :
    (i : ℕ) (failures : List Attempt)
    → All IsFailure failures
    → reconnect_from (delay_at i) (failures ++ (connected ∷ []))
      ≡ (delays_from i (length failures), reconnected)
unfolding reconnect_from after_failure
reconnects-from i [] h = refl
reconnects-from i (connect_failed ∷ fs) (_, h) = ap (after_failure i) (
    ap (λ b. reconnect_from b (fs ++ (connected ∷ []))) (next_backoff-delay_at i)
    ∙ reconnects-from (suc i) fs h)
reconnects-from i (listen_failed ∷ fs) (_, h) = ap (after_failure i) (
    ap (λ b. reconnect_from b (fs ++ (connected ∷ []))) (next_backoff-delay_at i)
    ∙ reconnects-from (suc i) fs h)
reconnects-from i (sleep_cancelled ∷ fs) (inl e, h) = absurd (cc e)
reconnects-from i (sleep_cancelled ∷ fs) (inr e, h) = absurd (cc e)
reconnects-from i (connected ∷ fs) (inl e, h) = absurd (cc e)
reconnects-from i (connected ∷ fs) (inr e, h) = absurd (cc e)

at_least_one : (i : ℕ) → 1 ≤ 2 ^ i
at_least_one zero = omega arith
at_least_one (suc i) = omega (arith, at_least_one i)

bounded : (i : ℕ) → (initial_backoff ≤ delay_at i) × (delay_at i ≤ maximum_backoff)
bounded i = let p = at_least_one i in (ground arith, ground arith)

bounded_from :
    (i k : ℕ) → All (λ d. (initial_backoff ≤ d) × (d ≤ maximum_backoff)) (delays_from i k)
bounded_from i zero = (bounded i, tt)
bounded_from i (suc k) = (bounded i, bounded_from (suc i) k)

-- A reconnection ends with the first attempt that succeeds: after any number of failures, whether
-- of the connection or of the LISTEN on it, it has slept once before every attempt, for 100 ms
-- doubled with every attempt and cut to 5 seconds, so that no sleep is shorter than 100 ms or
-- longer than 5 seconds.
pub reconnect_ends :
    (failures : List Attempt)
    → All IsFailure failures
    → (reconnect (failures ++ (connected ∷ [])) ≡ (delays_from 0 (length failures), reconnected))
      × All (λ d. (initial_backoff ≤ d) × (d ≤ maximum_backoff)) (delays_from 0 (length failures))
unfolding reconnect
reconnect_ends failures h = (reconnects-from 0 failures h, bounded_from 0 (length failures))
