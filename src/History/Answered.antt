-- ===== src/History/Answered.antt =====
-- internal/db/transfer_tx.go over histories: a request and the stored transfer that answers it.
use simplebank.Store.Exec.{exec_tx-eq-err}
use simplebank.Ledger.Opening.{create_account_tx-AccountOpened}
use simplebank.History.Ledger.{run_keeps}
use simplebank.Store.Account.{create_account_body, create_account_tx}
use simplebank.History.{run, Call}
use simplebank.Errors.{err, ok, Result}
use simplebank.Store.Transfer.Outcome.{posted}
use simplebank.Store.Transfer.Posted.{new_transfer, moved_accounts}
use simplebank.Sqlc.Transfers.{source_key_is}
use simplebank.Ledger.Accounts.{find?-add_to_ne, find?-add_to_self, add_to}
use simplebank.Sqlc.Accounts.{account_row, CreateAccountParams, add_balance, account_id_is}
use simplebank.Store.Transfer.Cases.{posts, replayed, transfer_tx-Outcome, failed, Outcome, Ended}
use simplebank.History.Keeps.{view, View}
use simplebank.Sqlc.Models.{Account, Db, Transfer, Pg}
use simplebank.Store.Transfer.{TransferTxResult, TransferTxParams}
use simplebank.Prelude.{
  ap, subst₂, exists_of_find?, ◌∷◌, false, exists, refl, ==_refl, neg64, eqb_ℤ_iff, sym, ◌∙◌, arith,
  subst, true, ==_iff, str_eq, inr, ◌==◌, some, inl, Bool-cases, ◌≡◌, find?, List, ℤ, String, ℕ,
}

-- An account of this id is there, in this currency.
pub record HasCurrency (id : ℕ) (currency : String) (rows : List Account) : Type 0 where
  pub account : Account
  pub found : find? (account_id_is id) rows ≡ some account
  pub same : str_eq account.currency currency ≡ true

pub add_to-HasCurrency :
    (j id : ℕ) (x : ℤ) (currency : String) (rows : List Account)
    → HasCurrency j currency rows
    → HasCurrency j currency (add_to id x rows)
add_to-HasCurrency j id x currency rows h = elim (Bool-cases (j == id)) [
  | inl hit ↦
      let e : j ≡ id = (==_iff j id).0 hit in
      record {
        account = add_balance x h.account;
        found =
            subst (λ i. find? (account_id_is j) (add_to i x rows) ≡ some (add_balance x h.account))
              e (find?-add_to_self j x rows h.account h.found);
        same = h.same;
      }
  | inr miss ↦ record {
    account = h.account;
    found = find?-add_to_ne j id x rows (ground arith) ∙ h.found;
    same = h.same;
  }
]

-- The request `arg` has been answered by the stored transfer `t`.
pub record Answered (arg : TransferTxParams) (t : Transfer) (v : View) : Type 0 where
  pub stored : find? (source_key_is arg.from_account_id arg.idempotency_key) v.2 ≡ some t
  pub from : t.from_account_id ≡ arg.from_account_id
  pub to : t.to_account_id ≡ arg.to_account_id
  pub amount : t.amount ≡ arg.amount
  pub from_there : HasCurrency arg.from_account_id arg.currency v.0
  pub to_there : HasCurrency arg.to_account_id arg.currency v.0

pub Ended-Answered :
    (pg : Pg) (arg : TransferTxParams) (db : Db) (r : TransferTxResult) (db' : Db)
    → Ended pg arg db r db'
    → Answered arg r.transfer (view db')
Ended-Answered pg arg db r db' (inl (x, same)) =
    subst (λ d. Answered arg r.transfer (view d)) (sym same)
      (record {
        stored = x.stored;
        from = ground (arith, x.agrees);
        to = ground (arith, x.agrees);
        amount = ground (arith, x.agrees, eqb_ℤ_iff r.transfer.amount arg.amount);
        from_there = record {
          account = r.from_account;
          found = ground (arith, x.agrees, x.from_found);
          same = ground (arith, x.agrees);
        };
        to_there = record {
          account = r.to_account;
          found = ground (arith, x.agrees, x.to_found);
          same = ground (arith, x.agrees);
        };
      })
Ended-Answered pg arg db r db' (inr (new, p)) =
    subst (λ d. Answered arg r.transfer (view d)) (sym p.state)
      (subst (λ t. Answered arg t (view (posted pg arg p.sent p.received db)))
        (sym p.money.transfer)
        (record {
          stored = rw (==_refl arg.from_account_id) (rw (==_refl arg.idempotency_key));
          from = refl;
          to = refl;
          amount = refl;
          from_there =
              moved_there arg.from_account_id
                (record { account = p.from; found = p.from_found; same = p.limits.from_currency });
          to_there =
              moved_there arg.to_account_id
                (record { account = p.to; found = p.to_found; same = p.limits.to_currency });
        }))
  where
    moved_there :
        (id : ℕ)
        → HasCurrency id arg.currency db.accounts
        → HasCurrency id arg.currency (moved_accounts arg db.accounts)
    moved_there id h =
        add_to-HasCurrency id arg.to_account_id arg.amount arg.currency _
          (add_to-HasCurrency id arg.from_account_id (neg64 arg.amount) arg.currency db.accounts h)

-- A new row with another key hides no stored transfer.
stored_below :
    (from key : ℕ) (new : Transfer) (ts : List Transfer) (t : Transfer)
    → exists (source_key_is new.from_account_id new.idempotency_key) ts ≡ false
    → find? (source_key_is from key) ts ≡ some t
    → find? (source_key_is from key) (new ∷ ts) ≡ some t
stored_below from key new ts t fresh h = elim (Bool-cases (source_key_is from key new)) [
  | inl hit ↦
      let ef : new.from_account_id ≡ from = ground arith in
      let ek : new.idempotency_key ≡ key = ground arith in
      cc (
        exists_of_find? (source_key_is from key) ts t h,
        subst₂ (λ a b. exists (source_key_is a b) ts ≡ false) ef ek fresh,
      )
  | inr miss ↦ rw miss h
]

there_below :
    (id : ℕ) (currency : String) (new : Account) (rows : List Account)
    → exists (account_id_is new.id) rows ≡ false
    → HasCurrency id currency rows
    → HasCurrency id currency (new ∷ rows)
there_below id currency new rows fresh h = elim (Bool-cases (account_id_is id new)) [
  | inl hit ↦
      let e : new.id ≡ id = ground arith in
      cc (
        exists_of_find? (account_id_is id) rows h.account h.found,
        subst (λ i. exists (account_id_is i) rows ≡ false) e fresh,
      )
  | inr miss ↦ record { account = h.account; found = rw miss h.found; same = h.same }
]

module _ (arg : TransferTxParams) (t : Transfer) where
  Outcome-Answered :
      (pg : Pg) (arg' : TransferTxParams) (db : Db) {r : Result TransferTxResult} {db' : Db}
      → Outcome pg arg' db r db'
      → Answered arg t (view db)
      → Answered arg t (view db')
  Outcome-Answered pg arg' db (failed e) a = a
  Outcome-Answered pg arg' db (replayed r x) a = a
  Outcome-Answered pg arg' db (posts r db' new p) a =
      subst (λ d. Answered arg t (view d)) (sym p.state)
        (record {
          stored =
              stored_below arg.from_account_id arg.idempotency_key (new_transfer pg arg')
                db.transfers t p.money.key_new a.stored;
          from = a.from;
          to = a.to;
          amount = a.amount;
          from_there = moved_there arg.from_account_id a.from_there;
          to_there = moved_there arg.to_account_id a.to_there;
        })
    where
      moved_there :
          (id : ℕ)
          → HasCurrency id arg.currency db.accounts
          → HasCurrency id arg.currency (moved_accounts arg' db.accounts)
      moved_there id h = add_to-HasCurrency id arg'.to_account_id arg'.amount arg.currency _ (
          add_to-HasCurrency id arg'.from_account_id (neg64 arg'.amount) arg.currency db.accounts h)

  create_account_tx-Answered :
      (pg : Pg) (arg' : CreateAccountParams) (db : Db)
      → Answered arg t (view db)
      → Answered arg t (view (create_account_tx pg arg' db).1)
  unfolding create_account_tx
  create_account_tx-Answered pg arg' db a = go (create_account_tx pg arg' db) refl
    where
      go :
          (x : Result Account × Db)
          → create_account_tx pg arg' db ≡ x
          → Answered arg t (view (create_account_tx pg arg' db).1)
      go (ok b, db') e =
          let (y, same) = create_account_tx-AccountOpened pg arg' db e in
          subst (λ x. Answered arg t (view x))
            (sym (ap (λ (x : Result Account × Db). x.1) e ∙ same))
            (record {
              stored = a.stored;
              from = a.from;
              to = a.to;
              amount = a.amount;
              from_there =
                  there_below arg.from_account_id arg.currency
                    (account_row (pg.uuidv7 0) pg.now arg') db.accounts y.id_new a.from_there;
              to_there =
                  there_below arg.to_account_id arg.currency (account_row (pg.uuidv7 0) pg.now arg')
                    db.accounts y.id_new a.to_there;
            })
      go (err x, db') e =
          subst (λ d. Answered arg t (view d))
            (sym (
              ap (λ (x : Result Account × Db). x.1) e
              ∙ exec_tx-eq-err (create_account_body pg arg') e))
            a

  pub run-Answered :
      (cs : List Call) (db : Db) → Answered arg t (view db) → Answered arg t (view (run cs db))
  run-Answered cs db =
      run_keeps (Answered arg t)
        (λ pg arg' db a. Outcome-Answered pg arg' db (transfer_tx-Outcome pg arg' db) a)
        create_account_tx-Answered cs db
