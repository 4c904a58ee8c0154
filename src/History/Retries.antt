-- ===== src/History/Retries.antt =====
-- internal/db/transfer_tx.go over histories: a request that is sent again.
use simplebank.History.Answered.{Ended-Answered, run-Answered, Answered}
use simplebank.Sqlc.Effects.{get_account-eq}
use simplebank.History.{run, Call}
use simplebank.Errors.{ok, Result}
use simplebank.Sqlc.Accounts.{account_id_is}
use simplebank.Store.Transfer.Cases.{known_call, transfer_tx-Ended}
use simplebank.History.Keeps.{view}
use simplebank.Sqlc.Models.{Account, Db, Transfer, Pg}
use simplebank.Store.Transfer.{
  transfer_replay, transfer_tx, replay_transfer, zero_entry, TransferTxResult, TransferTxParams,
}
use simplebank.Prelude.{ap, refl, eqb_ℤ_iff, ◌∙◌, arith, true, str_eq, some, ◌≡◌, find?, List}

abbrev replay_of : Transfer → Account → Account → TransferTxResult
replay_of t from to = record {
  transfer = t;
  from_account = from;
  to_account = to;
  from_entry = zero_entry;
  to_entry = zero_entry;
}

-- With both accounts there, a replay compares the stored transfer with the request.
pub replay_transfer-eq :
    (t : Transfer) (arg : TransferTxParams) (db : Db) (from to : Account)
    → find? (account_id_is t.from_account_id) db.accounts ≡ some from
    → find? (account_id_is t.to_account_id) db.accounts ≡ some to
    → replay_transfer t arg db ≡ transfer_replay t arg from to
unfolding replay_transfer
replay_transfer-eq t arg db from to f u =
    ground (arith, get_account-eq t.from_account_id db, get_account-eq t.to_account_id db)

agreed :
    (t : Transfer) (arg : TransferTxParams) (from to : Account)
    → t.from_account_id ≡ arg.from_account_id
    → t.to_account_id ≡ arg.to_account_id
    → t.amount ≡ arg.amount
    → str_eq from.currency arg.currency ≡ true
    → str_eq to.currency arg.currency ≡ true
    → transfer_replay t arg from to ≡ ok (replay_of t from to)
unfolding transfer_replay
agreed t arg from to a b c d e = ground (arith, (eqb_ℤ_iff t.amount arg.amount).1 c)

-- An answered request is answered by its transfer, and nothing moves.
Answered-replays :
    (pg : Pg) (arg : TransferTxParams) (t : Transfer) (db : Db)
    → (a : Answered arg t (view db))
    → transfer_tx pg arg db ≡ (ok (replay_of t a.from_there.account a.to_there.account), db)
Answered-replays pg arg t db a =
    known_call pg arg db t a.stored
    ∙ ap (λ (x : Result TransferTxResult). (x, db))
        (replay_transfer-eq t arg db a.from_there.account a.to_there.account
            (ap (λ i. find? (account_id_is i) db.accounts) a.from ∙ a.from_there.found)
            (ap (λ i. find? (account_id_is i) db.accounts) a.to ∙ a.to_there.found)
          ∙ agreed t arg a.from_there.account a.to_there.account a.from a.to a.amount
              a.from_there.same a.to_there.same)

-- A request that once succeeded may be sent again after any history: the answer is the same
-- transfer, and the database stays as it is.
pub retry_replays :
    (pg pg' : Pg) (arg : TransferTxParams) (db : Db) {r : TransferTxResult} {db1 : Db}
    (cs : List Call)
    → transfer_tx pg arg db ≡ (ok r, db1)
    → (r' : TransferTxResult) × (transfer_tx pg' arg (run cs db1) ≡ (ok r', run cs db1))
      × (r'.transfer ≡ r.transfer)
retry_replays pg pg' arg db {r} {db1} cs h =
    let a =
      run-Answered arg r.transfer cs db1
        (Ended-Answered pg arg db r db1 (transfer_tx-Ended pg arg db h)) in
    (
      replay_of r.transfer a.from_there.account a.to_there.account,
      Answered-replays pg' arg r.transfer (run cs db1) a,
      refl,
    )
