-- ===== src/History.antt =====
-- Histories: the store's calls that change the database, one after the other. Each is a
-- transaction, and the row locks make concurrent ones take effect in some order.
use simplebank.Store.Notification.{mark_all_notifications_read_tx, mark_notification_read_tx}
use simplebank.Store.Session.{rotate_session_tx, RotateSessionTxParams}
use simplebank.Sqlc.Sessions.{block_session, create_session, CreateSessionParams}
use simplebank.Store.Exec.{exec_tx}
use simplebank.Sqlc.VerifyEmails.{create_verify_email, CreateVerifyEmailParams}
use simplebank.Store.User.{verify_email_tx, VerifyEmailTxParams, create_user_tx}
use simplebank.Sqlc.Users.{CreateUserParams}
use simplebank.Store.Account.{create_account_tx}
use simplebank.Sqlc.Accounts.{CreateAccountParams}
use simplebank.Store.Transfer.{transfer_tx, TransferTxParams}
use simplebank.Prelude.{String, ℕ, none, [], ◌∷◌, List}
use simplebank.Sqlc.Models.{Db, Pg}
pub mod Keeps
pub mod Ledger
pub mod Answered
pub mod Retries
pub mod Conflicts
pub mod Refines

pub data Call : Type 0 where
  transfers : Pg → TransferTxParams → Call
  opens_account : Pg → CreateAccountParams → Call
  registers : Pg → CreateUserParams → Call
  issues_code : Pg → CreateVerifyEmailParams → Call
  verifies : Pg → VerifyEmailTxParams → Call
  signs_in : Pg → CreateSessionParams → Call
  rotates : RotateSessionTxParams → Call
  signs_out : ℕ → Call
  reads : Pg → String → ℕ → Call
  reads_all : Pg → String → Call

-- A call that is a single statement is a transaction of its own.
unfoldable pub step : Call → Db → Db
step (transfers pg arg) db = (transfer_tx pg arg db).1
step (opens_account pg arg) db = (create_account_tx pg arg db).1
step (registers pg arg) db = (create_user_tx pg (record { user = arg; after_create = none }) db).1
step (issues_code pg arg) db = (exec_tx (create_verify_email (pg.uuidv7 0) pg.now arg) db).1
step (verifies pg arg) db = (verify_email_tx pg arg db).1
step (signs_in pg arg) db = (exec_tx (create_session pg.now arg) db).1
step (rotates arg) db = (rotate_session_tx arg db).1
step (signs_out id) db = (exec_tx (block_session id) db).1
step (reads pg owner id) db = (mark_notification_read_tx pg owner id db).1
step (reads_all pg owner) db = (mark_all_notifications_read_tx pg owner db).1

unfoldable pub run : List Call → Db → Db
unfolding step
run [] db = db
run (c ∷ cs) db = run cs (step c db)

-- The database after the migrations.
abbrev pub empty : Db
empty = record {
  users = [];
  verify_emails = [];
  accounts = [];
  entries = [];
  transfers = [];
  notifications = [];
  sessions = [];
  published = [];
  locks = [];
}
