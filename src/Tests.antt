-- ===== src/Tests.antt =====
-- A small bank, the calls that the tests make on it, and one run of every property's hypotheses.

pub mod Transfers
pub mod Retries
pub mod Users
pub mod Sessions
pub mod Tokens
pub mod Mails
pub mod Pages
pub mod Listener
pub mod Server
pub mod Running
pub mod Frontend
pub mod Routes
pub mod Clients
pub mod Mailer
pub mod Notifications
pub mod Api
pub mod Hub
use simplebank.Sqlc.Entries.{create_entry}
use simplebank.Store.Exec.{exec_tx}
use simplebank.Sqlc.Transfers.{
  create_transfer, sum_outgoing_transfers_since, get_transfer_by_source_and_idempotency_key,
}
use simplebank.Prelude.{neg64, sub64, ◌+ℤ◌}
use simplebank.Store.Transfer.Posted.{new_transfer}
use simplebank.Sqlc.Accounts.{add_account_balance, get_account_for_update, add_balance}
use simplebank.Ledger.Posting.{paid}
use simplebank.Sqlc.Notifications.{publish_notification, create_notification, notification_row}
use simplebank.Errors.{classify_error, ok}
use simplebank.Store.Transfer.Outcome.{posted}
use simplebank.History.{empty}
use simplebank.Store.Transfer.Cases.{existing}
use simplebank.Ledger.Invariant.{IsLedger}
use simplebank.Sqlc.Models.{User, Entry, Pg, Db, VerifyEmail, Session, Account}
use simplebank.Store.Transfer.{TransferTxParams, transfer_tx}
use simplebank.Prelude.{negsuc, refl, [], none, false, pos, String, ◌≡◌, ℕ, ◌+◌, ◌∷◌}

abbrev pub pg : ℕ → Pg
pg n = record { uuidv7 = λ i. n + i; now = n; clock = n }

abbrev pub user : ℕ → String → User
user id username = record {
  id = id;
  username = username;
  hashed_password = "hash";
  full_name = username;
  email = username;
  is_email_verified = false;
  password_changed_at = 0;
  created_at = 0;
}

abbrev pub alice_account : Account
alice_account = record {
  id = 10;
  owner = "alice";
  balance = pos 500;
  currency = "USD";
  created_at = 1;
}

abbrev pub bob_account : Account
bob_account = record { id = 20; owner = "bob"; balance = pos 70; currency = "USD"; created_at = 2 }

abbrev opening_of : Account → ℕ → Entry
opening_of a id = record { id = id; account_id = a.id; amount = a.balance; created_at = 3 }

abbrev pub session : Session
session = record {
  id = 60;
  username = "alice";
  refresh_token = "first";
  user_agent = "agent";
  client_ip = "::1";
  is_blocked = false;
  expires_at = 5_000;
  created_at = 4;
}

abbrev pub code : VerifyEmail
code = record {
  id = 70;
  username = "alice";
  email = "alice";
  secret_code = "secret";
  is_used = false;
  created_at = 5;
  expired_at = 5_000;
}

-- Two users with an account each, a session and a verification code.
abbrev pub bank : Db
bank = record empty {
  users = user 2 "bob" ∷ user 1 "alice" ∷ [];
  accounts = bob_account ∷ alice_account ∷ [];
  entries = opening_of bob_account 21 ∷ opening_of alice_account 11 ∷ [];
  sessions = session ∷ [];
  verify_emails = code ∷ [];
}

-- Alice pays 30 to Bob, with a limit of 100 a day.
abbrev pub payment : TransferTxParams
payment = record {
  from_account_id = 10;
  to_account_id = 20;
  amount = pos 30;
  currency = "USD";
  idempotency_key = 7;
  daily_limit = pos 100;
}

abbrev pub bank_paid : Db
bank_paid =
    posted (pg 1_000) payment
      (notification_row 1_003 1_000 "sent" (add_balance (negsuc 29) alice_account)
        (new_transfer (pg 1_000) payment))
      (notification_row 1_004 1_000 "received" (add_balance (pos 30) bob_account)
        (new_transfer (pg 1_000) payment))
      bank

pub payment_posted :
    transfer_tx (pg 1_000) payment bank
    ≡ (ok (paid (pg 1_000) payment alice_account bob_account), bank_paid)
unfolding transfer_tx get_transfer_by_source_and_idempotency_key classify_error exec_tx
    get_account_for_update sub64 sum_outgoing_transfers_since create_transfer create_entry neg64
    add_account_balance ◌+ℤ◌ create_notification publish_notification
payment_posted = refl

pub first_payment : existing payment bank ≡ none
first_payment = refl
