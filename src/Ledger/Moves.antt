-- ===== src/Ledger/Moves.antt =====
-- internal/db/transfer_tx.go: the balances before and after a transfer.
use simplebank.Errors.{ok}
use simplebank.Ledger.Accounts.{find?-add_to_self, find?-add_to_ne, add_to}
use simplebank.Store.Transfer.Cases.{transfer_tx-Ended, existing}
use simplebank.Store.Transfer.Posted.{moved_accounts}
use simplebank.Store.Transfer.Outcome.{Posted}
use simplebank.Sqlc.Accounts.{account_id_is}
use simplebank.Prelude.{
  ==_iff, ◌==◌, if◌then◌else◌, Bool-cases, Option, inr, inl, ap₂, arith, none, sym, int_laws,
  neg64-eq, ◌∙◌, ap, subst₂, List, neg64, ◌≤ℤ◌, true, str_eq, pos, ◌∷◌, ℕ, ◌+ℤ◌, ◌-ℤ◌, some, ◌≡◌,
  ◌≢◌, find?, ℤ,
}
use simplebank.Store.Transfer.{transfer_tx, TransferTxResult, TransferTxParams}
use simplebank.Sqlc.Models.{Entry, Db, Pg, Account}

-- The account after its balance was changed by an amount.
abbrev pub with_balance : Account → ℤ → Account
with_balance a balance = record a { balance = balance }

-- The row of an id once the amount has gone from one account to the other: only these two change.
abbrev pub account_after :
    TransferTxParams → Account → Account → ℕ → Option Account → Option Account
account_after arg from to j before =
    if j == arg.from_account_id
    then some (with_balance from (from.balance -ℤ arg.amount))
    else if j == arg.to_account_id
    then some (with_balance to (to.balance +ℤ arg.amount))
    else before

pub record Moved (arg : TransferTxParams) (db : Db) (r : TransferTxResult) (db' : Db) : Type 0 where
  pub from : Account
  pub to : Account
  pub from_before : find? (account_id_is arg.from_account_id) db.accounts ≡ some from
  pub to_before : find? (account_id_is arg.to_account_id) db.accounts ≡ some to
  pub after :
      (j : ℕ)
      → find? (account_id_is j) db'.accounts
        ≡ account_after arg from to j (find? (account_id_is j) db.accounts)
  pub transfer_stored : db'.transfers ≡ r.transfer ∷ db.transfers
  pub entries_stored : db'.entries ≡ r.to_entry ∷ r.from_entry ∷ db.entries
  pub entries_cancel : r.from_entry.amount +ℤ r.to_entry.amount ≡ pos 0
  pub from_currency : str_eq from.currency arg.currency ≡ true
  pub to_currency : str_eq to.currency arg.currency ≡ true
  pub covered : arg.amount ≤ℤ from.balance

module _ (pg : Pg) (arg : TransferTxParams) (db : Db) {r : TransferTxResult} {db' : Db}
    (p : Posted pg arg db r db') where
  open p use {from, to, money}

  pub debit_is : neg64 arg.amount ≡ pos 0 -ℤ arg.amount
  debit_is = neg64-eq arg.amount money.positive (omega (arith, money.safe))

  pub covered_lem : arg.amount ≤ℤ from.balance
  covered_lem =
      let same : money.from_before ≡ from = cc (money.from_found, p.from_found) in
      let floor : pos 0 ≤ℤ from.balance +ℤ (pos 0 -ℤ arg.amount) =
        subst₂ (λ (a : Account) x. pos 0 ≤ℤ a.balance +ℤ x) same debit_is money.from_covered in
      omega int_laws

module _ (pg : Pg) (arg : TransferTxParams) (db : Db) {r : TransferTxResult} {db' : Db}
    (distinct : arg.from_account_id ≢ arg.to_account_id) (p : Posted pg arg db r db') where
  open p use {from, to, money}

  debited : List Account
  debited = add_to arg.from_account_id (neg64 arg.amount) db.accounts

  after :
      (j : ℕ)
      → find? (account_id_is j) db'.accounts
        ≡ find? (account_id_is j) (moved_accounts arg db.accounts)
  after j = ap (λ (d : Db). find? (account_id_is j) d.accounts) p.state

  from_after_lem :
      find? (account_id_is arg.from_account_id) db'.accounts
      ≡ some (with_balance from (from.balance -ℤ arg.amount))
  unfolding debited
  from_after_lem =
      after arg.from_account_id
      ∙ find?-add_to_ne arg.from_account_id arg.to_account_id arg.amount debited distinct
      ∙ find?-add_to_self arg.from_account_id (neg64 arg.amount) db.accounts from p.from_found
      ∙ ap (λ b. some (with_balance from b)) (rw (debit_is pg arg db p) (omega int_laws))

  to_after_lem :
      find? (account_id_is arg.to_account_id) db'.accounts
      ≡ some (with_balance to (to.balance +ℤ arg.amount))
  unfolding debited
  to_after_lem =
      after arg.to_account_id
      ∙ find?-add_to_self arg.to_account_id arg.amount debited to (
          find?-add_to_ne arg.to_account_id arg.from_account_id (neg64 arg.amount) db.accounts
            (λ e. distinct (sym e))
          ∙ p.to_found)

  others_lem :
      (j : ℕ)
      → j ≢ arg.from_account_id
      → j ≢ arg.to_account_id
      → find? (account_id_is j) db'.accounts ≡ find? (account_id_is j) db.accounts
  unfolding debited
  others_lem j jf jt =
      after j
      ∙ find?-add_to_ne j arg.to_account_id arg.amount debited jt
      ∙ find?-add_to_ne j arg.from_account_id (neg64 arg.amount) db.accounts jf

  after_lem :
      (j : ℕ)
      → find? (account_id_is j) db'.accounts
        ≡ account_after arg from to j (find? (account_id_is j) db.accounts)
  after_lem j = elim (Bool-cases (j == arg.from_account_id)) [
    | inl source ↦ rw (source, (==_iff j arg.from_account_id).0 source) from_after_lem
    | inr other ↦ elim (Bool-cases (j == arg.to_account_id)) [
      | inl target ↦ rw (other, target, (==_iff j arg.to_account_id).0 target) to_after_lem
      | inr neither ↦ rw (other, neither) (others_lem j (ground arith) (ground arith))
    ]
  ]

  Posted-Moved : Moved arg db r db'
  Posted-Moved = record {
    from = from;
    to = to;
    from_before = p.from_found;
    to_before = p.to_found;
    after = after_lem;
    transfer_stored =
        ap (λ (d : Db). d.transfers) p.state ∙ ap (λ t. t ∷ db.transfers) (sym money.transfer);
    entries_stored =
        ap (λ (d : Db). d.entries) p.state
        ∙ ap₂ (λ x y. x ∷ y ∷ db.entries) (sym money.to_entry) (sym money.from_entry);
    entries_cancel =
        ap₂ (λ (x y : Entry). x.amount +ℤ y.amount) money.from_entry money.to_entry
        ∙ rw (debit_is pg arg db p) (omega int_laws);
    from_currency = p.limits.from_currency;
    to_currency = p.limits.to_currency;
    covered = covered_lem pg arg db p;
  }

-- A call with a new key between two accounts that succeeds takes exactly the amount, which the
-- source holds, from the source and gives it to the destination, both in the request's currency;
-- it touches no other account, and stores the transfer and two entries that cancel.
pub transfer_tx-Moved :
    (pg : Pg) (arg : TransferTxParams) (db : Db) {r : TransferTxResult} {db' : Db}
    → arg.from_account_id ≢ arg.to_account_id
    → existing arg db ≡ none
    → transfer_tx pg arg db ≡ (ok r, db')
    → Moved arg db r db'
transfer_tx-Moved pg arg db distinct new h = elim (transfer_tx-Ended pg arg db h) [
  | inl (replay, same) ↦ absurd (cc (replay.stored, new))
  | inr (missing, p) ↦ Posted-Moved pg arg db distinct p
]
