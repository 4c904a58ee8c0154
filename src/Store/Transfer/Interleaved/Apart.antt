-- ===== src/Store/Transfer/Interleaved/Apart.antt =====
-- internal/db/transfer_tx.go: no two transfers hold a lock on the same account.
use simplebank.Prelude.{
  subst, ◌≡◌, ◌≢◌, sym, ◌∙◌, arith, ◌⊎◌, inl, inr, Bool-cases, ℕ, ◌<◌, ◌==◌, Bool, true, false,
  ◌||◌,
}
use simplebank.Sqlc.Models.{Db}
use simplebank.Store.Transfer.{TransferTxParams}
use simplebank.Store.Transfer.Interleaved.{
  Phase, over, locks_first, locks_second, locked, holds, first_lock, second_lock, System, set_phase,
  Free, Advance, takes_first, takes_second, commits, Step, advances, begins, gives_up, Reach, idle,
  later,
}

-- At most one client holds a lock.
abbrev pub Exclusive : ℕ → (ℕ → Phase) → Type 0
Exclusive n phase =
    (i j id : ℕ) → i < n → j < n → holds (phase i) id ≡ true → holds (phase j) id ≡ true → i ≡ j

-- A change of one client's phase, by which it keeps locks, gives them up, or takes free ones.
set_phase-Exclusive :
    (n : ℕ) (phase : ℕ → Phase) (k : ℕ) (p : Phase)
    → Exclusive n phase
    → k < n
    → ((id : ℕ) → holds p id ≡ true → (holds (phase k) id ≡ true) ⊎ Free n phase k id)
    → Exclusive n (set_phase phase k p)
set_phase-Exclusive n phase k p x low new i j id li lj hi hj = elim (Bool-cases (i == k)) [
  | inl a ↦ elim (Bool-cases (j == k)) [
    | inl b ↦ ground (arith, a, b)
    | inr b ↦
        one_changed i j id (ground (arith, a)) (ground (arith, b)) lj (new id (rw a at hi))
          (rw b at hj)
  ]
  | inr a ↦ elim (Bool-cases (j == k)) [
    | inl b ↦ sym (
        one_changed j i id (ground (arith, b)) (ground (arith, a)) li (new id (rw b at hj))
          (rw a at hi))
    | inr b ↦ x i j id li lj (rw a at hi) (rw b at hj)
  ]
]
  where
    one_changed :
        (i j id : ℕ)
        → i ≡ k
        → j ≢ k
        → j < n
        → (holds (phase k) id ≡ true) ⊎ Free n phase k id
        → holds (phase j) id ≡ true
        → i ≡ j
    one_changed i j id same other lj (inl old) hj = same ∙ x k j id low lj old hj
    one_changed i j id same other lj (inr free) hj = absurd (cc (free j lj other, hj))

pub eq_of : (a b : ℕ) → (a == b) ≡ true → a ≡ b
eq_of a b h = ground (arith, h)

Advance-Exclusive :
    {n : ℕ} {s t : System} → Advance n s t → Exclusive n s.phase → Exclusive n t.phase
Advance-Exclusive {n = n} (takes_first s i arg low e free) x =
    set_phase-Exclusive n s.phase i (locks_second arg) x low
      (λ id h. inr (subst (Free n s.phase i) (sym (eq_of id (first_lock arg) h)) free))
Advance-Exclusive {n = n} (takes_second s i arg low e free) x =
    set_phase-Exclusive n s.phase i (locked arg) x low (λ id h.
      elim (Bool-cases (id == second_lock arg)) [
        | inl second ↦ inr (subst (Free n s.phase i) (sym (eq_of id (second_lock arg) second)) free)
        | inr other ↦ inl (rw e (ground (arith, h, other)))
      ])
Advance-Exclusive {n = n} (commits s i arg pg low e) x =
    set_phase-Exclusive n s.phase i over x low (λ id h. absurd (cc h))

Step-Exclusive : {n : ℕ} {s t : System} → Step n s t → Exclusive n s.phase → Exclusive n t.phase
Step-Exclusive (advances a) x = Advance-Exclusive a x
Step-Exclusive {n = n} (begins s i arg low e) x =
    set_phase-Exclusive n s.phase i (locks_first arg) x low (λ id h. absurd (cc h))
Step-Exclusive {n = n} (gives_up s i low) x =
    set_phase-Exclusive n s.phase i over x low (λ id h. absurd (cc h))

pub Reach-Exclusive : {n : ℕ} {db : Db} {s : System} → Reach n db s → Exclusive n s.phase
Reach-Exclusive idle = λ i j id li lj hi hj. absurd (cc hi)
Reach-Exclusive (later r st) = Step-Exclusive st (Reach-Exclusive r)

-- The accounts of a transfer are those that it locks.
abbrev pub is_party : TransferTxParams → ℕ → Bool
is_party arg id = (id == arg.from_account_id) || (id == arg.to_account_id)

party_is_locked :
    (arg : TransferTxParams) (id : ℕ) → is_party arg id ≡ true → holds (locked arg) id ≡ true
party_is_locked arg id h = ground (arith, h)

-- Clients that run transfers beside each other, with any steps in any order: while a transfer
-- holds its two locks, no other one that holds both of its own has an account in common with it.
pub locked_transfers_apart :
    {n : ℕ} {db : Db} {s : System} {a b : TransferTxParams}
    → Reach n db s
    → (i j id : ℕ) → i < n
    → j < n
    → i ≢ j
    → s.phase i ≡ locked a
    → s.phase j ≡ locked b
    → is_party a id ≡ true
    → is_party b id ≡ false
locked_transfers_apart {s = s} {a = a} {b = b} r i j id li lj apart ei ej mine =
    elim (Bool-cases (is_party b id)) [
      | inr no_party ↦ no_party
      | inl theirs ↦ absurd (
          apart (
            Reach-Exclusive r i j id li lj (rw ei (party_is_locked a id mine))
              (rw ej (party_is_locked b id theirs))))
    ]
