-- ===== src/History/Refines.antt =====
-- internal/db: every history refines a bank book.
use simplebank.Currency.{max_safe_minor_units}
use simplebank.Errors.{err, ok, Result}
use simplebank.History.{run, Call}
use simplebank.History.Ledger.{run_keeps}
use simplebank.History.Keeps.{View}
use simplebank.Ledger.Book.{
  Permits, stays, opens, pays, Reaches, here, later, purse_of, book_of, changed, book_of-add_to,
  book_of-new,
}
use simplebank.Ledger.Opening.{create_account_tx-AccountOpened}
use simplebank.Ledger.Moves.{debit_is, covered_lem}
use simplebank.Prelude.{
  ◌≤ℤ◌, ◌≡◌, refl, sym, ap, ◌∙◌, subst, arith, int_laws, pos, neg64, sub64-eq, ◌+ℤ◌, ◌-ℤ◌, List,
  eq_iff, find?-none_of_exists,
}
use simplebank.Sqlc.Models.{Account, Db, Pg}
use simplebank.Store.Account.{create_account_body, create_account_tx}
use simplebank.Store.Exec.{exec_tx-eq-err}
use simplebank.Store.Transfer.{TransferTxParams, TransferTxResult}
use simplebank.Store.Transfer.Cases.{Outcome, posts, replayed, failed, transfer_tx-Outcome}
use simplebank.Store.Transfer.Outcome.{Posted}
use simplebank.Store.Transfer.Posted.{moved_accounts}
use simplebank.Sqlc.Accounts.{account_row, CreateAccountParams, account_id_is}

module _ (pg : Pg) (arg : TransferTxParams) (db : Db) {r : TransferTxResult} {db' : Db}
    (p : Posted pg arg db r db') where
  open p use {from, to, money}

  book_after :
      book_of (moved_accounts arg db.accounts)
      ≡ changed arg.to_account_id arg.amount
          (changed arg.from_account_id (pos 0 -ℤ arg.amount) (book_of db.accounts))
  book_after =
      book_of-add_to arg.to_account_id arg.amount _
      ∙ ap (changed arg.to_account_id arg.amount) (
          book_of-add_to arg.from_account_id (neg64 arg.amount) db.accounts
          ∙ ap (λ x. changed arg.from_account_id x (book_of db.accounts)) (debit_is pg arg db p))

  same_currency : from.currency ≡ to.currency
  same_currency =
      (eq_iff from.currency arg.currency).0 p.limits.from_currency
      ∙ sym ((eq_iff to.currency arg.currency).0 p.limits.to_currency)

  room_left : to.balance +ℤ arg.amount ≤ℤ max_safe_minor_units
  room_left =
      let e =
        sub64-eq max_safe_minor_units arg.amount money.positive (omega (arith, money.safe))
          (omega arith) (omega arith) in
      let h : to.balance ≤ℤ max_safe_minor_units -ℤ arg.amount =
        subst (λ x. to.balance ≤ℤ x) e p.limits.room in
      omega int_laws

  Posted-Permits : Permits (book_of db.accounts) (book_of db'.accounts)
  Posted-Permits =
      subst (Permits (book_of db.accounts))
        (sym (ap (λ (d : Db). book_of d.accounts) p.state ∙ book_after))
        (pays (book_of db.accounts) arg.from_account_id arg.to_account_id arg.amount
          (record { currency = from.currency; amount = from.balance })
          (record { currency = to.currency; amount = to.balance }) (ap purse_of p.from_found)
          (ap purse_of p.to_found) same_currency money.positive (covered_lem pg arg db p) room_left)

Outcome-Permits :
    (pg : Pg) (arg : TransferTxParams) (db : Db) {r : Result TransferTxResult} {db' : Db}
    → Outcome pg arg db r db'
    → Permits (book_of db.accounts) (book_of db'.accounts)
Outcome-Permits pg arg db (failed e) = stays (book_of db.accounts)
Outcome-Permits pg arg db (replayed r x) = stays (book_of db.accounts)
Outcome-Permits pg arg db (posts r db' new p) = Posted-Permits pg arg db p

create_account_tx-Permits :
    (pg : Pg) (arg : CreateAccountParams) (db : Db)
    → Permits (book_of db.accounts) (book_of (create_account_tx pg arg db).1.accounts)
unfolding create_account_tx
create_account_tx-Permits pg arg db = go (create_account_tx pg arg db) refl
  where
    go :
        (x : Result Account × Db)
        → create_account_tx pg arg db ≡ x
        → Permits (book_of db.accounts) (book_of (create_account_tx pg arg db).1.accounts)
    go (ok a, db') e =
        let (y, same) = create_account_tx-AccountOpened pg arg db e in
        subst (Permits (book_of db.accounts))
          (sym (
            ap (λ (x : Result Account × Db). book_of x.1.accounts) e
            ∙ ap (λ (d : Db). book_of d.accounts) same
            ∙ book_of-new (account_row (pg.uuidv7 0) pg.now arg) db.accounts))
          (opens (book_of db.accounts) (pg.uuidv7 0) _
            (ap purse_of (find?-none_of_exists (account_id_is (pg.uuidv7 0)) db.accounts y.id_new))
            y.nonnegative y.safe)
    go (err x, db') e =
        subst (λ (d : Db). Permits (book_of db.accounts) (book_of d.accounts))
          (sym (
            ap (λ (x : Result Account × Db). x.1) e
            ∙ exec_tx-eq-err (create_account_body pg arg) e))
          (stays (book_of db.accounts))

-- Every history of the store's calls refines the bank book: the book of the accounts after it is
-- reached from the one before it by permitted steps only. So a balance changes, whatever calls are
-- made and however they fail, only by payments within one currency that the source covers and the
-- target can hold below 2^53, or begins with an opening under a new id.
pub run-Reaches :
    (cs : List Call) (db : Db) → Reaches (book_of db.accounts) (book_of (run cs db).accounts)
run-Reaches cs db =
    run_keeps (λ (v : View). Reaches (book_of db.accounts) (book_of v.0))
      (λ pg arg d h. later h (Outcome-Permits pg arg d (transfer_tx-Outcome pg arg d)))
      (λ pg arg d h. later h (create_account_tx-Permits pg arg d)) cs db here
