-- ===== src/Ledger/SelfTransfer.antt =====
-- internal/db/transfer_tx.go: a transfer from an account to itself.
use simplebank.Ledger.Accounts.{add_to}
use simplebank.Store.Transfer.Posted.{moved_accounts, new_transfer}
use simplebank.Sqlc.Notifications.{about_is}
use simplebank.Sqlc.Transfers.{transfer_id_is}
use simplebank.Errors.{Result, err, Error}
use simplebank.Sqlc.Accounts.{add_balance, account_id_is}
use simplebank.Store.Transfer.Cases.{
  transfer_tx-Outcome, posts, replayed, failed, Outcome, existing,
}
use simplebank.Store.Transfer.Outcome.{Posted}
use simplebank.Sqlc.Models.{Notification, Account, Db, Pg}
use simplebank.Prelude.{
  refl, arith, false, ◌∷◌, neg64, sym, exists, find?_holds, ==_iff, ◌∙◌, ap, some, none, find?, ◌≡◌,
  List, ℤ, ℕ,
}
use simplebank.Store.Transfer.{TransferTxResult, TransferTxParams, transfer_tx}

added_id :
    (id : ℕ) (x : ℤ) (rows : List Account) (before after : Account)
    → find? (account_id_is id) rows ≡ some before
    → after ≡ add_balance x before
    → after.id ≡ id
added_id id x rows before after f e =
    ap (λ (b : Account). b.id) e
    ∙ (==_iff before.id id).0 (find?_holds (account_id_is id) rows before f)

clash :
    (n : Notification) (t t' a a' : ℕ) (ns : List Notification)
    → n.transfer_id ≡ t
    → n.account_id ≡ a
    → t ≡ t'
    → a ≡ a'
    → exists (about_is t' a') (n ∷ ns) ≡ false
    → ⊥
clash n t t' a a' ns e f g h fresh = ground arith

-- The second notification would be about the same transfer and account as the first.
never-Posted :
    (pg : Pg) (arg : TransferTxParams) (db : Db) {r : TransferTxResult} {db' : Db}
    → arg.from_account_id ≡ arg.to_account_id
    → Posted pg arg db r db'
    → ⊥
never-Posted pg arg db {r} same p =
    let s = p.sent_created in
    let v = p.received_created in
    let m = p.money in
    let one_transfer : s.transfer.id ≡ v.transfer.id =
      (==_iff s.transfer.id r.transfer.id).0 (
        find?_holds (transfer_id_is r.transfer.id) (new_transfer pg arg ∷ db.transfers) s.transfer
          s.transfer_found)
      ∙ sym (
          (==_iff v.transfer.id r.transfer.id).0 (
            find?_holds (transfer_id_is r.transfer.id) (new_transfer pg arg ∷ db.transfers)
              v.transfer v.transfer_found)) in
    let sender : s.account.id ≡ arg.from_account_id =
      (==_iff s.account.id r.from_account.id).0 (
        find?_holds (account_id_is r.from_account.id) (moved_accounts arg db.accounts) s.account
          s.account_found)
      ∙ added_id arg.from_account_id (neg64 arg.amount) db.accounts m.from_before r.from_account
          m.from_found m.from_account in
    let receiver : v.account.id ≡ arg.to_account_id =
      (==_iff v.account.id r.to_account.id).0 (
        find?_holds (account_id_is r.to_account.id) (moved_accounts arg db.accounts) v.account
          v.account_found)
      ∙ added_id arg.to_account_id arg.amount
          (add_to arg.from_account_id (neg64 arg.amount) db.accounts) m.to_before r.to_account
          m.to_found m.to_account in
    clash p.sent s.transfer.id v.transfer.id s.account.id v.account.id db.notifications
      (ap (λ (n : Notification). n.transfer_id) s.row)
      (ap (λ (n : Notification). n.account_id) s.row) one_transfer (sender ∙ same ∙ sym receiver)
      v.about_new

-- `TransferTx` never moves money from an account to itself: under a new key it fails, whatever
-- the accounts and the limits are, and changes nothing.
pub self_transfer_fails :
    (pg : Pg) (arg : TransferTxParams) (db : Db)
    → arg.from_account_id ≡ arg.to_account_id
    → existing arg db ≡ none
    → (e : Error) × (transfer_tx pg arg db ≡ (err e, db))
self_transfer_fails pg arg db same new = go (transfer_tx-Outcome pg arg db) refl
  where
    go :
        {x : Result TransferTxResult} {db' : Db}
        → Outcome pg arg db x db'
        → transfer_tx pg arg db ≡ (x, db')
        → (e : Error) × (transfer_tx pg arg db ≡ (err e, db))
    go (failed e) h = (e, h)
    go (replayed r replay) h = absurd (cc (replay.stored, new))
    go (posts r db' missing p) h = absurd (never-Posted pg arg db same p)
