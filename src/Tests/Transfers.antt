-- ===== src/Tests/Transfers.antt =====
-- The hypotheses of the ledger's properties, met by the small bank.
use simplebank.Store.Account.{create_account_tx}
use simplebank.Ledger.Accounts.{sum_balances}
use simplebank.Ledger.Succeeds.{transfer_tx_succeeds, transfer_tx_insufficient}
use simplebank.Ledger.Posting.{paid}
use simplebank.Ledger.Invariant.{transfer_tx-IsLedger, IsLedger}
use simplebank.Ledger.Opening.{brought, create_account_tx-IsLedger}
use simplebank.Sqlc.Accounts.{CreateAccountParams}
use simplebank.Errors.{insufficient_balance, err, ok}
use simplebank.Ledger.Payments.{Admitted, FreshIds}
use simplebank.Ledger.DailyLimit.{transfer_tx-within_day, sent_since}
use simplebank.Store.Transfer.Cases.{transfer_tx-Outcome, Outcome}
use simplebank.Ledger.Moves.{transfer_tx-Moved, Moved}
use simplebank.Store.Transfer.{TransferTxParams, transfer_tx}
use simplebank.Prelude.{refl, arith, ◌≤ℤ◌, pos, ◌≡◌, sub64, ◌+ℤ◌}
use simplebank.Tests.{
  payment_posted, first_payment, bob_account, alice_account, bank_paid, payment, pg, bank,
}

bank-IsLedger : IsLedger bank
unfolding ◌+ℤ◌
bank-IsLedger = record {
  unique = (refl, (refl, tt));
  in_range = (
    record { nonnegative = omega arith; safe = omega arith },
    (record { nonnegative = omega arith; safe = omega arith }, tt),
  );
  balanced = (refl, (refl, tt));
  known = (refl, (refl, tt));
  keys = tt;
  amounts = tt;
}

transfer_tx-IsLedger_example :
    let db' = (transfer_tx (pg 1_000) payment bank).1 in
    IsLedger db' × (sum_balances db'.accounts ≡ sum_balances bank.accounts)
transfer_tx-IsLedger_example = transfer_tx-IsLedger (pg 1_000) payment bank bank-IsLedger

transfer_tx-Moved_example :
    Moved payment bank (paid (pg 1_000) payment alice_account bob_account) bank_paid
transfer_tx-Moved_example =
    transfer_tx-Moved (pg 1_000) payment bank (omega arith) first_payment payment_posted

transfer_tx-Outcome_example :
    Outcome
      (pg 1_000)
      payment
      bank
      (transfer_tx (pg 1_000) payment bank).0
      (transfer_tx (pg 1_000) payment bank).1
transfer_tx-Outcome_example = transfer_tx-Outcome (pg 1_000) payment bank

transfer_tx-within_day_example :
    sent_since payment.from_account_id 1_000 bank_paid.transfers ≤ℤ payment.daily_limit
transfer_tx-within_day_example =
    transfer_tx-within_day (pg 1_000) payment bank (omega arith) (omega arith) first_payment
      payment_posted

-- A request for more than Alice has, without a daily limit.
abbrev too_much : TransferTxParams
too_much = record payment { amount = pos 501; daily_limit = pos 0 }

ids_are_fresh : FreshIds (pg 1_000) payment bank
ids_are_fresh = record {
  transfer = refl;
  from_entry = refl;
  to_entry = refl;
  entries_apart = refl;
  sent = refl;
  received = refl;
  notifications_apart = refl;
  sent_about = refl;
  received_about = refl;
}

ids_are_fresh_too : FreshIds (pg 1_000) too_much bank
ids_are_fresh_too = record {
  transfer = refl;
  from_entry = refl;
  to_entry = refl;
  entries_apart = refl;
  sent = refl;
  received = refl;
  notifications_apart = refl;
  sent_about = refl;
  received_about = refl;
}

payment-Admitted : Admitted (pg 1_000) payment bank alice_account bob_account
unfolding sub64
payment-Admitted = record {
  new = refl;
  distinct = omega arith;
  positive = omega arith;
  safe = omega arith;
  from_found = refl;
  to_found = refl;
  from_range = record { nonnegative = omega arith; safe = omega arith };
  to_range = record { nonnegative = omega arith; safe = omega arith };
  from_owner = refl;
  to_owner = refl;
  limits = record {
    from_currency = refl;
    to_currency = refl;
    room = omega arith;
    within_limit = refl;
    within_day = refl;
  };
  ids = ids_are_fresh;
}

too_much-Admitted : Admitted (pg 1_000) too_much bank alice_account bob_account
unfolding sub64
too_much-Admitted = record {
  new = refl;
  distinct = omega arith;
  positive = omega arith;
  safe = omega arith;
  from_found = refl;
  to_found = refl;
  from_range = record { nonnegative = omega arith; safe = omega arith };
  to_range = record { nonnegative = omega arith; safe = omega arith };
  from_owner = refl;
  to_owner = refl;
  limits = record {
    from_currency = refl;
    to_currency = refl;
    room = omega arith;
    within_limit = refl;
    within_day = refl;
  };
  ids = ids_are_fresh_too;
}

transfer_tx_succeeds_example :
    (transfer_tx (pg 1_000) payment bank).0 ≡ ok (paid (pg 1_000) payment alice_account bob_account)
transfer_tx_succeeds_example =
    transfer_tx_succeeds (pg 1_000) payment bank alice_account bob_account payment-Admitted
      (omega arith)

transfer_tx_insufficient_example :
    transfer_tx (pg 1_000) too_much bank ≡ (err insufficient_balance, bank)
transfer_tx_insufficient_example =
    transfer_tx_insufficient (pg 1_000) too_much bank alice_account bob_account too_much-Admitted
      (omega arith)

abbrev euros : CreateAccountParams
euros = record { owner = "alice"; balance = pos 5; currency = "EUR" }

create_account_tx-IsLedger_example :
    let (r, db') = create_account_tx (pg 2_000) euros bank in
    IsLedger db' × (sum_balances db'.accounts ≡ sum_balances bank.accounts +ℤ brought r)
create_account_tx-IsLedger_example = create_account_tx-IsLedger (pg 2_000) euros bank bank-IsLedger
