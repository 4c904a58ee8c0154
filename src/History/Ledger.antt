-- ===== src/History/Ledger.antt =====
-- internal/db: the ledger over whole histories.
use simplebank.Store.Account.{create_account_tx}
use simplebank.Sqlc.Accounts.{CreateAccountParams}
use simplebank.Store.Notification.{mark_all_notifications_read_tx, mark_notification_read_tx}
use simplebank.Ledger.Opening.{create_account_tx-IsLedger}
use simplebank.Store.Session.{rotate_session_tx}
use simplebank.Store.Transfer.{transfer_tx, TransferTxParams}
use simplebank.Ledger.Invariant.{transfer_tx-IsLedger, IsLedger}
use simplebank.Store.User.{verify_email_tx, create_user_tx}
use simplebank.Prelude.{[], ◌∷◌, sym, subst, List}
use simplebank.Sqlc.Models.{Pg, Db}
use simplebank.History.{Call, empty, run, step}
use simplebank.History.Keeps.{
  mark_all_notifications_read_body-Keeps, mark_notification_read_body-Keeps, block_session-Keeps,
  rotate_session_body-Keeps, create_session-Keeps, verify_email_body-Keeps,
  create_verify_email-Keeps, create_user_body-Keeps, exec_tx-view, view, View,
}

-- A property of the three tables that a transfer and an opening keep is kept by every call.
pub step_keeps :
    (P : View → Type 0)
    → ((pg : Pg) (arg : TransferTxParams) (db : Db)
        → P (view db)
        → P (view (transfer_tx pg arg db).1))
    → ((pg : Pg) (arg : CreateAccountParams) (db : Db)
        → P (view db)
        → P (view (create_account_tx pg arg db).1))
    → (c : Call) (db : Db) → P (view db)
    → P (view (step c db))
unfolding step create_user_tx verify_email_tx rotate_session_tx mark_notification_read_tx
    mark_all_notifications_read_tx
step_keeps P t o (Call.transfers pg arg) db h = t pg arg db h
step_keeps P t o (Call.opens_account pg arg) db h = o pg arg db h
step_keeps P t o (Call.registers pg arg) db h =
    subst P (sym (exec_tx-view _ db (create_user_body-Keeps pg arg))) h
step_keeps P t o (Call.issues_code pg arg) db h =
    subst P (sym (exec_tx-view _ db (create_verify_email-Keeps (pg.uuidv7 0) pg.now arg))) h
step_keeps P t o (Call.verifies pg arg) db h =
    subst P (sym (exec_tx-view _ db (verify_email_body-Keeps pg arg))) h
step_keeps P t o (Call.signs_in pg arg) db h =
    subst P (sym (exec_tx-view _ db (create_session-Keeps pg.now arg))) h
step_keeps P t o (Call.rotates arg) db h =
    subst P (sym (exec_tx-view _ db (rotate_session_body-Keeps arg))) h
step_keeps P t o (Call.signs_out id) db h =
    subst P (sym (exec_tx-view _ db (block_session-Keeps id))) h
step_keeps P t o (Call.reads pg owner id) db h =
    subst P (sym (exec_tx-view _ db (mark_notification_read_body-Keeps pg owner id))) h
step_keeps P t o (Call.reads_all pg owner) db h =
    subst P (sym (exec_tx-view _ db (mark_all_notifications_read_body-Keeps pg owner))) h

pub run_keeps :
    (P : View → Type 0)
    → ((pg : Pg) (arg : TransferTxParams) (db : Db)
        → P (view db)
        → P (view (transfer_tx pg arg db).1))
    → ((pg : Pg) (arg : CreateAccountParams) (db : Db)
        → P (view db)
        → P (view (create_account_tx pg arg db).1))
    → (cs : List Call) (db : Db) → P (view db)
    → P (view (run cs db))
unfolding run
run_keeps P t o [] db h = h
run_keeps P t o (c ∷ cs) db h = run_keeps P t o cs (step c db) (step_keeps P t o c db h)

-- A database with these three tables.
abbrev pub of_view : View → Db
of_view v = record empty { accounts = v.0; entries = v.1; transfers = v.2 }

to_view : (db : Db) → IsLedger db → IsLedger (of_view (view db))
to_view db l = record {
  unique = l.unique;
  in_range = l.in_range;
  balanced = l.balanced;
  known = l.known;
  keys = l.keys;
  amounts = l.amounts;
}

from_view : (db : Db) → IsLedger (of_view (view db)) → IsLedger db
from_view db l = record {
  unique = l.unique;
  in_range = l.in_range;
  balanced = l.balanced;
  known = l.known;
  keys = l.keys;
  amounts = l.amounts;
}

-- After any history of calls from the empty database the ledger is in order: every balance is the
-- sum of the account's entries and lies between zero and 2^53 - 1, ids and keys are unique, and
-- every entry names an account.
pub run-IsLedger : (cs : List Call) → IsLedger (run cs empty)
run-IsLedger cs = from_view (run cs empty) (
    run_keeps (λ v. IsLedger (of_view v))
      (λ pg arg db l. to_view _ (transfer_tx-IsLedger pg arg db (from_view db l)).0)
      (λ pg arg db l. to_view _ (create_account_tx-IsLedger pg arg db (from_view db l)).0) cs empty
      (record { unique = tt; in_range = tt; balanced = tt; known = tt; keys = tt; amounts = tt }))
