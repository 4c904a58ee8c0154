-- ===== src/Ledger/Invariant.antt =====
-- internal/db/transfer_tx.go: the invariant of the ledger under `TransferTx`.
use simplebank.Store.Transfer.Outcome.{posted}
use simplebank.Store.Transfer.Cases.{transfer_tx-Outcome, posts, replayed, failed, Outcome}
use simplebank.Errors.{Result}
use simplebank.Sqlc.Accounts.{account_id_is}
use simplebank.Ledger.Transfers.{IsAmount, UniqueKeys}
use simplebank.Ledger.Entries.{All-Known-add_to, add_to-Balanced, Known, Balanced}
use simplebank.Store.Transfer.Posted.{sent_entry, received_entry, moved, moved_accounts, MoneyMoved}
use simplebank.Prelude.{
  sym, subst, refl, true, exists, exists_of_find?, ℕ, ◌+ℤ◌, ◌∷◌, arith, ap, neg64-eq, ◌∙◌, ◌-ℤ◌,
  int_laws, pos, ◌≡◌, neg64, List, All,
}
use simplebank.Store.Transfer.{transfer_tx, TransferTxResult, TransferTxParams}
use simplebank.Ledger.Accounts.{
  exists-add_to, sum_balances-add_to, add_to, add_to-UniqueIds, add_to-InRange, sum_balances,
  find?-InRange, InRange, UniqueIds,
}
use simplebank.Sqlc.Models.{Notification, Transfer, Account, Pg, Db}

pub record IsLedger (db : Db) : Type 0 where
  pub unique : UniqueIds db.accounts
  pub in_range : All InRange db.accounts
  pub balanced : All (Balanced db.entries) db.accounts
  pub known : All (Known db.accounts) db.entries
  pub keys : UniqueKeys db.transfers
  pub amounts : All (λ (t : Transfer). IsAmount t.amount) db.transfers

module _ (pg : Pg) (arg : TransferTxParams) {db : Db} {r : TransferTxResult} (l : IsLedger db)
    (m : MoneyMoved pg arg db.accounts db.transfers r) where
  debited : List Account
  debited = add_to arg.from_account_id (neg64 arg.amount) db.accounts

  debit_is : neg64 arg.amount ≡ pos 0 -ℤ arg.amount
  debit_is = neg64-eq arg.amount m.positive (omega (arith, m.safe))

  debited-InRange : All InRange debited
  unfolding debited
  debited-InRange =
      let before =
        find?-InRange arg.from_account_id db.accounts m.from_before m.from_found l.in_range in
      add_to-InRange arg.from_account_id (neg64 arg.amount) db.accounts m.from_before l.unique
        m.from_found (record { nonnegative = m.from_covered; safe = rw debit_is (omega int_laws) })
        l.in_range

  pub moved-InRange : All InRange (moved_accounts arg db.accounts)
  unfolding debited
  moved-InRange =
      let before = find?-InRange arg.to_account_id debited m.to_before m.to_found debited-InRange in
      add_to-InRange arg.to_account_id arg.amount debited m.to_before
        (add_to-UniqueIds arg.from_account_id (neg64 arg.amount) db.accounts l.unique) m.to_found
        (record { nonnegative = omega (int_laws, m.positive); safe = m.to_safe }) debited-InRange

  still_known :
      (id : ℕ)
      → exists (account_id_is id) debited ≡ true
      → exists (account_id_is id) (moved_accounts arg db.accounts) ≡ true
  unfolding debited
  still_known id h = exists-add_to id arg.to_account_id arg.amount debited ∙ h

  pub moved-IsLedger : IsLedger (moved pg arg db)
  unfolding debited
  moved-IsLedger = record {
    unique =
        add_to-UniqueIds arg.to_account_id arg.amount _
          (add_to-UniqueIds arg.from_account_id (neg64 arg.amount) db.accounts l.unique);
    in_range = moved-InRange;
    balanced =
        add_to-Balanced (received_entry pg arg) (sent_entry pg arg ∷ db.entries) _
          (add_to-Balanced (sent_entry pg arg) db.entries db.accounts l.balanced);
    known = (
      still_known arg.to_account_id
          (exists_of_find? (account_id_is arg.to_account_id) debited m.to_before m.to_found),
      (
        still_known arg.from_account_id (
            exists-add_to arg.from_account_id arg.from_account_id (neg64 arg.amount) db.accounts
            ∙ exists_of_find? (account_id_is arg.from_account_id) db.accounts m.from_before
                m.from_found),
        All-Known-add_to arg.to_account_id arg.amount debited db.entries (
            All-Known-add_to arg.from_account_id (neg64 arg.amount) db.accounts db.entries l.known),
      ),
    );
    keys = (m.key_new, l.keys);
    amounts = (record { positive = m.positive; safe = m.safe }, l.amounts);
  }

  -- The sum of all balances is what it was.
  pub sum_balances-moved : sum_balances (moved_accounts arg db.accounts) ≡ sum_balances db.accounts
  unfolding debited
  sum_balances-moved =
      sum_balances-add_to arg.to_account_id arg.amount debited m.to_before
        (add_to-UniqueIds arg.from_account_id (neg64 arg.amount) db.accounts l.unique) m.to_found
      ∙ ap (λ x. x +ℤ arg.amount)
          (sum_balances-add_to arg.from_account_id (neg64 arg.amount) db.accounts m.from_before
            l.unique m.from_found)
      ∙ rw debit_is (omega int_laws)

-- The notifications stand outside the ledger.
posted-IsLedger :
    (pg : Pg) (arg : TransferTxParams) (sent received : Notification) (db : Db)
    → IsLedger (moved pg arg db)
    → IsLedger (posted pg arg sent received db)
posted-IsLedger pg arg sent received db l = record {
  unique = l.unique;
  in_range = l.in_range;
  balanced = l.balanced;
  known = l.known;
  keys = l.keys;
  amounts = l.amounts;
}

-- From a database whose ledger is in order, whatever `TransferTx` answers, every balance is still
-- the sum of its entries and between 0 and 2^53 - 1, no key is stored twice for a source account,
-- and no money was made or lost.
pub transfer_tx-IsLedger :
    (pg : Pg) (arg : TransferTxParams) (db : Db)
    → IsLedger db
    → let db' = (transfer_tx pg arg db).1 in
      IsLedger db' × (sum_balances db'.accounts ≡ sum_balances db.accounts)
transfer_tx-IsLedger pg arg db l = go (transfer_tx-Outcome pg arg db)
  where
    go :
        {r : Result TransferTxResult} {db' : Db}
        → Outcome pg arg db r db'
        → IsLedger db' × (sum_balances db'.accounts ≡ sum_balances db.accounts)
    go (failed e) = (l, refl)
    go (replayed r same) = (l, refl)
    go (posts r db' new p) =
        subst (λ (d : Db). IsLedger d × (sum_balances d.accounts ≡ sum_balances db.accounts))
          (sym p.state)
          (
            posted-IsLedger pg arg p.sent p.received db (moved-IsLedger pg arg l p.money),
            sum_balances-moved pg arg l p.money,
          )
