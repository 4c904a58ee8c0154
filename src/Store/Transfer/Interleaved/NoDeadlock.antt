-- ===== src/Store/Transfer/Interleaved/NoDeadlock.antt =====
-- internal/db/transfer_tx.go: some transfer can always go on, by the order of `lockAccounts`.
use simplebank.Errors.{ok}
use simplebank.Prelude.{
  subst, ◌≡◌, ◌≢◌, refl, sym, arith, ◌⊎◌, inl, inr, Bool-cases, ℕ, zero, suc, ◌+◌, ◌<◌, ◌≤◌, ◌==◌,
  true, false, ltb, ◌∷◌,
}
use simplebank.Sqlc.Models.{Account, Db, Pg}
use simplebank.Store.Transfer.{TransferTxParams, lock_accounts}
use simplebank.Store.Transfer.Locking.{lock_accounts-eq-ok}
use simplebank.Store.Transfer.Interleaved.{
  Phase, over, locks_first, locks_second, locked, holds, first_lock, second_lock, System, Free,
  Advance, takes_first, takes_second, commits, Reach,
}
use simplebank.Store.Transfer.Interleaved.Apart.{eq_of, Exclusive, Reach-Exclusive}

-- `lockAccounts` takes the two locks of the machine, the first one first.
pub lock_accounts_in_order :
    (arg : TransferTxParams) (db : Db) {from to : Account} {db' : Db}
    → lock_accounts arg.from_account_id arg.to_account_id db ≡ ok ((from, to), db')
    → db'.locks ≡ second_lock arg ∷ first_lock arg ∷ db.locks
lock_accounts_in_order arg db h =
    let (_, _, same) = lock_accounts-eq-ok arg.from_account_id arg.to_account_id db h in
    ground (arith, same)

first_lock_not_above : (arg : TransferTxParams) → first_lock arg ≤ second_lock arg
first_lock_not_above arg = ground arith

-- The lock is free for a client, or another one holds it.
HeldByOther : ℕ → (ℕ → Phase) → ℕ → ℕ → Type 0
HeldByOther n phase i id = (j : ℕ) × (j < n) × (j ≢ i) × (holds (phase j) id ≡ true)

lock_decided : (n : ℕ) (phase : ℕ → Phase) (i id : ℕ) → Free n phase i id ⊎ HeldByOther n phase i id
unfolding HeldByOther
lock_decided zero phase i id = inl (λ j low. absurd (omega arith))
lock_decided (suc n) phase i id = elim (lock_decided n phase i id) [
  | inr (j, low, other, held) ↦ inr (j, omega arith, other, held)
  | inl free ↦ elim (Bool-cases (n == i)) [
    | inl self ↦ inl (λ j low other. free j (ground arith) other)
    | inr apart ↦ elim (Bool-cases (holds (phase n) id)) [
      | inl held ↦ inr (n, omega arith, ground arith, held)
      | inr loose ↦ inl (λ j low other. elim (Bool-cases (j == n)) [
        | inl last ↦ subst (λ m. holds (phase m) id ≡ false) (sym (eq_of j n last)) loose
        | inr before ↦ free j (ground arith) other
      ])
    ]
  ]
]

-- A number above all second locks that are waited for.
abbrev wanted : Phase → ℕ
wanted (locks_second arg) = second_lock arg
wanted _ = 0

abbrev ceiling : ℕ → (ℕ → Phase) → ℕ
ceiling zero phase = 0
ceiling (suc n) phase = ceiling n phase + wanted (phase n) + 1

below_ceiling : (n : ℕ) (phase : ℕ → Phase) (i : ℕ) → i < n → wanted (phase i) < ceiling n phase
below_ceiling zero phase i low = absurd (omega arith)
below_ceiling (suc n) phase i low = elim (Bool-cases (i == n)) [
  | inl last ↦
      subst (λ m. wanted (phase m) < ceiling (suc n) phase) (sym (eq_of i n last)) (omega arith)
  | inr before ↦ let lower = below_ceiling n phase i (ground arith) in omega arith
]

module _ (n : ℕ) (s : System) (pg : Pg) (x : Exclusive n s.phase) where
  Going : Type 0
  Going = (t : System) × Advance n s t

  -- The holder of a lock whose second lock is the same holds all it needs.
  held_alone :
      (k : ℕ) (c : TransferTxParams)
      → k < n
      → s.phase k ≡ locks_second c
      → second_lock c ≡ first_lock c
      → Free n s.phase k (second_lock c)
  held_alone k c low e same j lj other = elim (Bool-cases (holds (s.phase j) (second_lock c))) [
    | inr loose ↦ loose
    | inl held ↦ absurd (other (x j k (second_lock c) lj low held (rw e (ground (arith, same)))))
  ]

  -- What the holder of a lock can do, where the lock is above those of the chain so far.
  holder_goes :
      (k id : ℕ) (p : Phase)
      → k < n
      → s.phase k ≡ p
      → holds p id ≡ true
      → ((c : TransferTxParams)
          → s.phase k ≡ locks_second c
          → first_lock c < second_lock c
          → first_lock c ≡ id
          → Going)
      → Going
  unfolding Going
  holder_goes k id over low e held on = absurd (cc held)
  holder_goes k id (locks_first c) low e held on = absurd (cc held)
  holder_goes k id (locked c) low e held on = (_, commits s k c pg low e)
  holder_goes k id (locks_second c) low e held on =
      elim (Bool-cases (ltb (first_lock c) (second_lock c))) [
        | inl less ↦ on c e (ground (arith, less)) (sym (eq_of id (first_lock c) held))
        | inr equal ↦ (
          _,
          takes_second s k c low e (held_alone k c low e (ground (arith, first_lock_not_above c))),
        )
      ]

  -- A client goes on, or the holder of its next lock does, if whoever waits for a higher one does.
  waiting_goes :
      (i : ℕ) (a : TransferTxParams)
      → i < n
      → s.phase i ≡ locks_second a
      → ((k : ℕ) (c : TransferTxParams)
          → k < n
          → s.phase k ≡ locks_second c
          → second_lock a < second_lock c
          → Going)
      → Going
  unfolding Going HeldByOther
  waiting_goes i a low e on = elim (lock_decided n s.phase i (second_lock a)) [
    | inl free ↦ (_, takes_second s i a low e free)
    | inr (k, lk, _, held) ↦
        holder_goes k (second_lock a) (s.phase k) lk refl held
          (λ c ec less same. on k c lk ec (omega arith))
  ]

  -- The chain of holders ends below the ceiling.
  along :
      (d i : ℕ) (a : TransferTxParams)
      → i < n
      → s.phase i ≡ locks_second a
      → ceiling n s.phase ≤ d + second_lock a
      → Going
  along zero i a low e bound = waiting_goes i a low e (λ k c lk ec higher.
      let below : second_lock c < ceiling n s.phase =
        subst (λ (p : Phase). wanted p < ceiling n s.phase) ec (below_ceiling n s.phase k lk) in
      absurd (omega arith))
  along (suc d) i a low e bound =
      waiting_goes i a low e (λ k c lk ec higher. along d k c lk ec (omega arith))

  from_phase : (i : ℕ) (p : Phase) → i < n → s.phase i ≡ p → p ≢ over → Going
  unfolding Going HeldByOther
  from_phase i over low e busy = absurd (busy refl)
  from_phase i (locked a) low e busy = (_, commits s i a pg low e)
  from_phase i (locks_second a) low e busy = along (ceiling n s.phase) i a low e (omega arith)
  from_phase i (locks_first a) low e busy = elim (lock_decided n s.phase i (first_lock a)) [
    | inl free ↦ (_, takes_first s i a low e free)
    | inr (k, lk, _, held) ↦
        holder_goes k (first_lock a) (s.phase k) lk refl held
          (λ c ec less same. along (ceiling n s.phase) k c lk ec (omega arith))
  ]

-- Clients that run transfers beside each other, with any steps in any order, never deadlock: while
-- one of them runs a transfer, some transfer can take its next lock at once or, with both, commit.
pub transfers_never_deadlock :
    {n : ℕ} {db : Db} {s : System}
    → (pg : Pg) → Reach n db s
    → (i : ℕ) → i < n
    → s.phase i ≢ over
    → (t : System) × Advance n s t
unfolding Going
transfers_never_deadlock {n = n} {s = s} pg r i low busy =
    from_phase n s pg (Reach-Exclusive r) i (s.phase i) low refl busy
