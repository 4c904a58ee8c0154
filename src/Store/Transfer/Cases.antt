-- ===== src/Store/Transfer/Cases.antt =====
-- internal/db/transfer_tx.go: the returns of `TransferTx`.
use simplebank.Store.Exec.{exec_tx-err, exec_tx-ok, exec_tx}
use simplebank.Store.Transfer.Locking.{lock_accounts-eq-ok, with_locks}
use simplebank.Sqlc.Effects.{get_account-eq, get_transfer_by_source_and_idempotency_key-eq}
use simplebank.Store.Transfer.Outcome.{post_transfer-Posted, Posted}
use simplebank.Prelude.{
  refl, Option-cases, subst, ◌∙◌, Bool-cases, sym, ap, inr, inl, ◌⊎◌, false, none, arith, some, ◌≡◌,
  find?, Option,
}
use simplebank.Sqlc.Accounts.{account_id_is}
use simplebank.Errors.{
  record_not_found, is_unique_violation, no_rows, err, ok, or_err, Error, Result, classify_error,
}
use simplebank.Sqlc.Models.{Account, Transfer, Db, Pg}
use simplebank.Sqlc.Transfers.{source_key_is, get_transfer_by_source_and_idempotency_key}
use simplebank.Store.Transfer.{
  transfer_tx, resolve_violation, lock_accounts, transfer_body, replay_or_post, transfer_replay,
  zero_entry, replay_conflicts, optional, TransferTxResult, find_existing, replay_transfer,
  TransferTxParams,
}
use simplebank.Sqlc.Tx.{>>=-eq-ok, Tx}

-- The transfer that a source account and a key name.
abbrev pub existing : TransferTxParams → Db → Option Transfer
existing arg db = find? (source_key_is arg.from_account_id arg.idempotency_key) db.transfers

pub find_existing-eq :
    (arg : TransferTxParams) (db : Db) → find_existing arg db ≡ or_err (existing arg db) no_rows
find_existing-eq arg db = ground (
  arith,
  get_transfer_by_source_and_idempotency_key-eq arg.from_account_id arg.idempotency_key db,
)

abbrev pub lookup_again : TransferTxParams → Tx (Option Transfer)
lookup_again arg =
    optional (get_transfer_by_source_and_idempotency_key arg.from_account_id arg.idempotency_key)

pub lookup_again-eq :
    (arg : TransferTxParams) (db : Db) → lookup_again arg db ≡ ok (existing arg db, db)
unfolding classify_error
lookup_again-eq arg db = ground (
  arith,
  get_transfer_by_source_and_idempotency_key-eq arg.from_account_id arg.idempotency_key db,
)

-- A stored transfer that answers the request: the accounts are the current rows.
pub record Replayed (arg : TransferTxParams) (db : Db) (r : TransferTxResult) : Type 0 where
  pub stored : existing arg db ≡ some r.transfer
  pub from_found :
      find? (account_id_is r.transfer.from_account_id) db.accounts ≡ some r.from_account
  pub to_found : find? (account_id_is r.transfer.to_account_id) db.accounts ≡ some r.to_account
  pub agrees : replay_conflicts r.transfer arg r.from_account r.to_account ≡ false
  pub from_entry : r.from_entry ≡ zero_entry
  pub to_entry : r.to_entry ≡ zero_entry

-- How a call that began at `db` has ended.
pub data Outcome (pg : Pg) (arg : TransferTxParams) (db : Db)
    : Result TransferTxResult → Db → Type 0 where
  failed : (e : Error) → Outcome pg arg db (err e) db
  replayed : (r : TransferTxResult) → Replayed arg db r → Outcome pg arg db (ok r) db
  posts :
      (r : TransferTxResult) (db' : Db)
      → existing arg db ≡ none
      → Posted pg arg db r db'
      → Outcome pg arg db (ok r) db'

replay_transfer-Replayed :
    (t : Transfer) (arg : TransferTxParams) (db : Db) (r : TransferTxResult)
    → existing arg db ≡ some t
    → replay_transfer t arg db ≡ ok r
    → Replayed arg db r
unfolding replay_transfer transfer_replay
replay_transfer-Replayed t arg db r e h =
    ground (arith, get_account-eq t.from_account_id db, get_account-eq t.to_account_id db)

module _ (pg : Pg) (arg : TransferTxParams) (db : Db) where
  -- What the body's success means for the committed state.
  abbrev pub Ended : TransferTxResult → Db → Type 0
  Ended r db' =
      (Replayed arg db r × (db' ≡ db)) ⊎ ((existing arg db ≡ none) × Posted pg arg db r db')

  abbrev unlocked : Db → Db
  unlocked db' = record db' { locks = db.locks }

  replay_or_post-Ended :
      (from to : Account) (found : Option Transfer) {r : TransferTxResult} {db' : Db}
      → find? (account_id_is arg.from_account_id) db.accounts ≡ some from
      → find? (account_id_is arg.to_account_id) db.accounts ≡ some to
      → existing arg db ≡ found
      → replay_or_post pg arg (from, to) found (with_locks arg.from_account_id arg.to_account_id db)
        ≡ ok (r, db')
      → Ended r (unlocked db')
  unfolding replay_or_post transfer_replay
  replay_or_post-Ended from to (some t) f u e h = inl (ground arith, ground arith)
  replay_or_post-Ended from to none f u e h =
      let p =
        post_transfer-Posted pg arg from to (with_locks arg.from_account_id arg.to_account_id db) f
          u h in
      inr (
        e,
        record {
          from = p.from;
          to = p.to;
          from_found = p.from_found;
          to_found = p.to_found;
          limits = p.limits;
          money = p.money;
          sent = p.sent;
          sent_created = p.sent_created;
          received = p.received;
          received_created = p.received_created;
          state = ap unlocked p.state;
        },
      )

  after_locks :
      (from to : Account) (db1 db2 : Db) (found : Option Transfer) {r : TransferTxResult} {db' : Db}
      → (find? (account_id_is arg.from_account_id) db.accounts ≡ some from)
        × (find? (account_id_is arg.to_account_id) db.accounts ≡ some to)
        × (db1 ≡ with_locks arg.from_account_id arg.to_account_id db)
      → lookup_again arg db1 ≡ ok (found, db2)
      → replay_or_post pg arg (from, to) found db2 ≡ ok (r, db')
      → Ended r (unlocked db')
  after_locks from to db1 db2 found {r} {db'} (f, u, e1) e2 h =
      replay_or_post-Ended from to found f u same_row
        (subst (λ d. replay_or_post pg arg (from, to) found d ≡ ok (r, db')) same_state h)
    where
      answer :
          ◌≡◌ {A = Result (Option Transfer × Db)} (ok (existing arg db1, db1)) (ok (found, db2))
      answer = sym (lookup_again-eq arg db1) ∙ e2

      same_row : existing arg db ≡ found
      same_row = sym (ap (existing arg) e1) ∙ cc answer

      same_state : db2 ≡ with_locks arg.from_account_id arg.to_account_id db
      same_state = cc answer ∙ e1

  transfer_body-Ended :
      {r : TransferTxResult} {db' : Db}
      → transfer_body pg arg db ≡ ok (r, db')
      → Ended r (unlocked db')
  unfolding transfer_body
  transfer_body-Ended h =
      let ((from, to), db1, e1, h1) =
        >>=-eq-ok (lock_accounts arg.from_account_id arg.to_account_id) _ h in
      let (found, db2, e2, h2) = >>=-eq-ok (lookup_again arg) _ h1 in
      after_locks from to db1 db2 found
        (lock_accounts-eq-ok arg.from_account_id arg.to_account_id db e1) e2 h2

  resolve_failed :
      (e : Error)
      → existing arg db ≡ none
      → (x : Error) × (resolve_violation arg (err e, db) ≡ (err x, db))
  unfolding resolve_violation classify_error
  resolve_failed e missing = elim (Bool-cases (is_unique_violation e)) [
    | inl lost ↦ (record_not_found, ground (arith, find_existing-eq arg db))
    | inr other ↦ (e, ground arith)
  ]

  pub first_call :
      existing arg db ≡ none
      → transfer_tx pg arg db ≡ resolve_violation arg (exec_tx (transfer_body pg arg) db)
  unfolding transfer_tx classify_error
  first_call missing = ground (arith, find_existing-eq arg db)

  pub known_call :
      (t : Transfer)
      → existing arg db ≡ some t
      → transfer_tx pg arg db ≡ (replay_transfer t arg db, db)
  unfolding transfer_tx
  known_call t stored = ground (arith, find_existing-eq arg db)

  abbrev Ends : Result TransferTxResult × Db → Type 0
  Ends (r, db') = Outcome pg arg db r db'

  committed-Ends :
      (r : TransferTxResult) (db' : Db) → Ended r db' → Ends (resolve_violation arg (ok r, db'))
  unfolding resolve_violation
  committed-Ends r db' (inl (replay, same)) =
      subst (Outcome pg arg db (ok r)) (sym same) (replayed r replay)
  committed-Ends r db' (inr (missing, p)) = posts r db' missing p

  executed-Ends :
      (x : Result (TransferTxResult × Db))
      → transfer_body pg arg db ≡ x
      → existing arg db ≡ none
      → Ends (resolve_violation arg (exec_tx (transfer_body pg arg) db))
  executed-Ends (ok (r, db')) e missing =
      subst (λ x. Ends (resolve_violation arg x)) (sym (exec_tx-ok (transfer_body pg arg) e))
        (committed-Ends r (unlocked db') (transfer_body-Ended e))
  executed-Ends (err x) e missing =
      let (y, f) = resolve_failed x missing in
      subst (λ x. Ends (resolve_violation arg x)) (sym (exec_tx-err (transfer_body pg arg) e))
        (subst Ends (sym f) (failed y))

  known-Ends :
      (t : Transfer) (x : Result TransferTxResult)
      → existing arg db ≡ some t
      → replay_transfer t arg db ≡ x
      → Ends (replay_transfer t arg db, db)
  known-Ends t (ok r) e h =
      subst (λ x. Ends (x, db)) (sym h) (replayed r (replay_transfer-Replayed t arg db r e h))
  known-Ends t (err x) e h = subst (λ x. Ends (x, db)) (sym h) (failed x)

  -- An error leaves the database as it was; so does a replay, which answers with the stored
  -- transfer and the current accounts; and only a call with a new key posts a transfer.
  pub transfer_tx-Outcome : Outcome pg arg db (transfer_tx pg arg db).0 (transfer_tx pg arg db).1
  transfer_tx-Outcome = elim (Option-cases (existing arg db)) [
    | inl missing ↦ subst Ends (sym (first_call missing)) (executed-Ends _ refl missing)
    | inr (t, stored) ↦ subst Ends (sym (known_call t stored)) (known-Ends t _ stored refl)
  ]

Outcome-Ended :
    (pg : Pg) (arg : TransferTxParams) (db : Db) (r : TransferTxResult)
    {x : Result TransferTxResult} {db' : Db}
    → Outcome pg arg db x db'
    → x ≡ ok r
    → Ended pg arg db r db'
Outcome-Ended pg arg db r (failed e) h = cc
Outcome-Ended pg arg db r (replayed s replay) h = inl (subst (Replayed arg db) (cc h) replay, refl)
Outcome-Ended pg arg db r (posts s db' missing p) h =
    inr (missing, subst (λ y. Posted pg arg db y db') (cc h) p)

-- A call that succeeded has replayed a stored transfer, or posted a new one.
pub transfer_tx-Ended :
    (pg : Pg) (arg : TransferTxParams) (db : Db) {r : TransferTxResult} {db' : Db}
    → transfer_tx pg arg db ≡ (ok r, db')
    → Ended pg arg db r db'
transfer_tx-Ended pg arg db {r} {db'} h =
    subst (Ended pg arg db r) (ap (λ (x : Result TransferTxResult × Db). x.1) h) (
      Outcome-Ended pg arg db r (transfer_tx-Outcome pg arg db)
        (ap (λ (x : Result TransferTxResult × Db). x.0) h))
