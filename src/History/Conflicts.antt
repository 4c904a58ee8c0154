-- ===== src/History/Conflicts.antt =====
-- internal/db/transfer_tx.go over histories: a key that is used for another request.
use simplebank.History.Answered.{Ended-Answered, run-Answered, Answered}
use simplebank.Sqlc.Accounts.{account_id_is}
use simplebank.Sqlc.Transfers.{source_key_is}
use simplebank.Store.Transfer.Cases.{transfer_tx-Ended, known_call}
use simplebank.History.Keeps.{view}
use simplebank.History.Retries.{replay_transfer-eq}
use simplebank.Errors.{Result, ok, idempotency_conflict, err}
use simplebank.Prelude.{
  sym, ap, eqb_ℤ, ◌∙◌, Bool-cases, eqb_ℤ_iff, inr, find?, ap₂, arith, inl, ◌⊎◌, ◌≢◌, List, ◌≡◌,
}
use simplebank.Sqlc.Models.{Account, Db, Transfer, Pg}
use simplebank.Store.Transfer.{transfer_tx, TransferTxResult, transfer_replay, TransferTxParams}
use simplebank.History.{run, Call}

-- The requests ask for different money, or for another destination.
abbrev pub Differs : TransferTxParams → TransferTxParams → Type 0
Differs arg arg' = (arg.to_account_id ≢ arg'.to_account_id) ⊎ (arg.amount ≢ arg'.amount)

disagreed :
    (t : Transfer) (arg arg' : TransferTxParams) (from to : Account)
    → Differs arg arg'
    → t.to_account_id ≡ arg.to_account_id
    → t.amount ≡ arg.amount
    → transfer_replay t arg' from to ≡ err idempotency_conflict
unfolding transfer_replay
disagreed t arg arg' from to (inl d) b c = ground arith
disagreed t arg arg' from to (inr d) b c =
    let e = eqb_ℤ_iff t.amount arg'.amount in
    elim (Bool-cases (eqb_ℤ t.amount arg'.amount)) [
      | inl hit ↦ absurd (d (sym c ∙ e.0 hit))
      | inr miss ↦ ground arith
    ]

Answered-refuses :
    (pg : Pg) (arg arg' : TransferTxParams) (t : Transfer) (db : Db)
    → arg'.from_account_id ≡ arg.from_account_id
    → arg'.idempotency_key ≡ arg.idempotency_key
    → Differs arg arg'
    → Answered arg t (view db)
    → transfer_tx pg arg' db ≡ (err idempotency_conflict, db)
Answered-refuses pg arg arg' t db f k d a =
    known_call pg arg' db t (ap₂ (λ i j. find? (source_key_is i j) db.transfers) f k ∙ a.stored)
    ∙ ap (λ (x : Result TransferTxResult). (x, db))
        (replay_transfer-eq t arg' db a.from_there.account a.to_there.account
            (ap (λ i. find? (account_id_is i) db.accounts) a.from ∙ a.from_there.found)
            (ap (λ i. find? (account_id_is i) db.accounts) a.to ∙ a.to_there.found)
          ∙ disagreed t arg arg' a.from_there.account a.to_there.account d a.to a.amount)

-- Once a request has succeeded, a request from the same account under the same key that names
-- another destination or another amount is a conflict, after any history, and changes nothing.
pub reused_key_conflicts :
    (pg pg' : Pg) (arg arg' : TransferTxParams) (db : Db) {r : TransferTxResult} {db1 : Db}
    (cs : List Call)
    → transfer_tx pg arg db ≡ (ok r, db1)
    → arg'.from_account_id ≡ arg.from_account_id
    → arg'.idempotency_key ≡ arg.idempotency_key
    → Differs arg arg'
    → transfer_tx pg' arg' (run cs db1) ≡ (err idempotency_conflict, run cs db1)
reused_key_conflicts pg pg' arg arg' db {r} {db1} cs h f k d =
    Answered-refuses pg' arg arg' r.transfer (run cs db1) f k d (
      run-Answered arg r.transfer cs db1
        (Ended-Answered pg arg db r db1 (transfer_tx-Ended pg arg db h)))
