-- ===== src/Store/Transfer/Interleaved.antt =====
-- internal/db/transfer_tx.go: clients that run transfers beside each other, as far as the row locks
-- of `lockAccounts` are concerned. A lock that another transaction holds is waited for. What
-- follows the locks is not interleaved: it takes effect as one step when the transaction commits,
-- which releases them.
pub mod Apart
pub mod NoDeadlock
use simplebank.Prelude.{
  ◌≡◌, ◌≢◌, ℕ, ◌<◌, ◌==◌, ltb, Bool, true, false, ◌||◌, Option, none, some, if◌then◌else◌,
}
use simplebank.Sqlc.Models.{Db, Pg}
use simplebank.Store.Exec.{exec_tx}
use simplebank.Store.Transfer.{TransferTxParams, transfer_body}

-- The account that `lockAccounts` locks first, and the one that it locks second.
abbrev pub lock_order : TransferTxParams → ℕ × ℕ
lock_order arg =
    if ltb arg.from_account_id arg.to_account_id
    then (arg.from_account_id, arg.to_account_id)
    else (arg.to_account_id, arg.from_account_id)

abbrev pub first_lock : TransferTxParams → ℕ
first_lock arg = (lock_order arg).0

abbrev pub second_lock : TransferTxParams → ℕ
second_lock arg = (lock_order arg).1

-- A client runs no transfer, or one that has no lock yet, the first one, or both.
pub data Phase : Type 0 where
  over : Phase
  locks_first locks_second locked : TransferTxParams → Phase

abbrev pub holds : Phase → ℕ → Bool
holds (locks_second arg) id = id == first_lock arg
holds (locked arg) id = (id == first_lock arg) || (id == second_lock arg)
holds _ id = false

pub record System : Type 0 where
  pub db : Db
  pub phase : ℕ → Phase

abbrev pub set_phase : (ℕ → Phase) → ℕ → Phase → ℕ → Phase
set_phase phase i p j = if j == i then p else phase j

-- No other of the n clients holds the lock.
abbrev pub Free : ℕ → (ℕ → Phase) → ℕ → ℕ → Type 0
Free n phase i id = (j : ℕ) → j < n → j ≢ i → holds (phase j) id ≡ false

-- A client gets its next lock, or, with both, commits.
pub data Advance (n : ℕ) : System → System → Type 0 where
  takes_first :
      (s : System) (i : ℕ) (arg : TransferTxParams)
      → i < n
      → s.phase i ≡ locks_first arg
      → Free n s.phase i (first_lock arg)
      → Advance n s (record s { phase = set_phase s.phase i (locks_second arg) })
  takes_second :
      (s : System) (i : ℕ) (arg : TransferTxParams)
      → i < n
      → s.phase i ≡ locks_second arg
      → Free n s.phase i (second_lock arg)
      → Advance n s (record s { phase = set_phase s.phase i (locked arg) })
  commits :
      (s : System) (i : ℕ) (arg : TransferTxParams) (pg : Pg)
      → i < n
      → s.phase i ≡ locked arg
      → Advance n s (record {
        db = (exec_tx (transfer_body pg arg) s.db).1;
        phase = set_phase s.phase i over;
      })

-- A client can also begin a transfer when it runs none, and give one up at any time.
pub data Step (n : ℕ) : System → System → Type 0 where
  advances : {s t : System} → Advance n s t → Step n s t
  begins :
      (s : System) (i : ℕ) (arg : TransferTxParams)
      → i < n
      → s.phase i ≡ over
      → Step n s (record s { phase = set_phase s.phase i (locks_first arg) })
  gives_up : (s : System) (i : ℕ) → i < n → Step n s (record s { phase = set_phase s.phase i over })

-- The states that n clients can reach from a database in which nobody runs a transfer.
pub data Reach (n : ℕ) (db : Db) : System → Type 0 where
  idle : Reach n db (record { db = db; phase = λ i. over })
  later : {s t : System} → Reach n db s → Step n s t → Reach n db t
