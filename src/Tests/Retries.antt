-- ===== src/Tests/Retries.antt =====
-- The payment, sent again and reused after other calls.
use simplebank.History.Refines.{run-Reaches}
use simplebank.Ledger.Book.{book_of, Reaches}
use simplebank.Sqlc.Users.{CreateUserParams}
use simplebank.History.Conflicts.{reused_key_conflicts}
use simplebank.History.Retries.{retry_replays}
use simplebank.Store.Transfer.Posted.{new_transfer}
use simplebank.Errors.{idempotency_conflict, err, ok}
use simplebank.History.Ledger.{run-IsLedger}
use simplebank.History.{empty, run, Call}
use simplebank.Ledger.Invariant.{IsLedger}
use simplebank.Store.Transfer.{transfer_tx, TransferTxResult, TransferTxParams}
use simplebank.Prelude.{String, eqb_ℤ_iff, ◌≢◌, refl, inr, [], ◌≡◌, ◌∷◌, pos, List}
use simplebank.Tests.{payment_posted, bank_paid, pg, payment, bank}

-- Bob pays 5 back in between, and Alice signs out.
abbrev between : List Call
between =
    Call.transfers (pg 3_000) (record {
      from_account_id = 20;
      to_account_id = 10;
      amount = pos 5;
      currency = "USD";
      idempotency_key = 7;
      daily_limit = pos 0;
    })
    ∷ Call.signs_out 60
    ∷ []

abbrev other_amount : TransferTxParams
other_amount = record payment { amount = pos 31 }

other_is_other : payment.amount ≢ other_amount.amount
other_is_other e = cc ((eqb_ℤ_iff (pos 30) (pos 31)).1 e)

retry_replays_example :
    (r' : TransferTxResult) × (transfer_tx (pg 4_000) payment (run between bank_paid)
      ≡ (ok r', run between bank_paid))
    × (r'.transfer ≡ new_transfer (pg 1_000) payment)
retry_replays_example = retry_replays (pg 1_000) (pg 4_000) payment bank between payment_posted

reused_key_conflicts_example :
    transfer_tx (pg 4_000) other_amount (run between bank_paid)
    ≡ (err idempotency_conflict, run between bank_paid)
reused_key_conflicts_example =
    reused_key_conflicts (pg 1_000) (pg 4_000) payment other_amount bank between payment_posted refl
      refl (inr other_is_other)

-- Two users register and open accounts, and the first one pays the second.
abbrev registration : String → CreateUserParams
registration name = record {
  username = name;
  hashed_password = "hash";
  full_name = name;
  email = name;
}

abbrev life : List Call
life =
    Call.registers (pg 1) (registration "alice")
    ∷ Call.registers (pg 2) (registration "bob")
    ∷ Call.opens_account (pg 10) (record { owner = "alice"; balance = pos 500; currency = "USD" })
    ∷ Call.opens_account (pg 20) (record { owner = "bob"; balance = pos 70; currency = "USD" })
    ∷ Call.transfers (pg 1_000) payment
    ∷ []

run-IsLedger_example : IsLedger (run life empty)
run-IsLedger_example = run-IsLedger life

run-Reaches_example : Reaches (book_of empty.accounts) (book_of (run life empty).accounts)
run-Reaches_example = run-Reaches life empty
