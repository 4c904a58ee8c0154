-- ===== src/Sqlc/Models.antt =====
-- internal/db/sqlc/models.go and the tables of internal/db/migrations. A uuid is the number of its
-- 128 bits; its text is of fixed width, so `String()` orders as the numbers do. A time is a number
-- of microseconds since Go's zero time.
use simplebank.Prelude.{ℕ, ℤ, String, Bool, Option, List}

pub record Account : Type 0 where
  pub id : ℕ
  pub owner : String
  pub balance : ℤ
  pub currency : String
  pub created_at : ℕ

pub record Entry : Type 0 where
  pub id : ℕ
  pub account_id : ℕ
  pub amount : ℤ
  pub created_at : ℕ

pub record Transfer : Type 0 where
  pub id : ℕ
  pub from_account_id : ℕ
  pub to_account_id : ℕ
  pub amount : ℤ
  pub created_at : ℕ
  pub idempotency_key : ℕ

pub record Notification : Type 0 where
  pub id : ℕ
  pub owner : String
  pub account_id : ℕ
  pub transfer_id : ℕ
  pub direction : String
  pub amount : ℤ
  pub currency : String
  pub balance : ℤ
  pub read_at : Option ℕ
  pub created_at : ℕ

pub record Session : Type 0 where
  pub id : ℕ
  pub username : String
  pub refresh_token : String
  pub user_agent : String
  pub client_ip : String
  pub is_blocked : Bool
  pub expires_at : ℕ
  pub created_at : ℕ

pub record User : Type 0 where
  pub id : ℕ
  pub username : String
  pub hashed_password : String
  pub full_name : String
  pub email : String
  pub is_email_verified : Bool
  pub password_changed_at : ℕ
  pub created_at : ℕ

pub record VerifyEmail : Type 0 where
  pub id : ℕ
  pub username : String
  pub email : String
  pub secret_code : String
  pub is_used : Bool
  pub created_at : ℕ
  pub expired_at : ℕ

-- The committed state of the database, or what a transaction sees of it. `published` is the
-- queue of pg_notify, newest first; `locks` are the row locks that the running transaction holds.
pub record Db : Type 0 where
  pub users : List User
  pub verify_emails : List VerifyEmail
  pub accounts : List Account
  pub entries : List Entry
  pub transfers : List Transfer
  pub notifications : List Notification
  pub sessions : List Session
  pub published : List (ℕ × String)
  pub locks : List ℕ

-- What the server supplies to one transaction: the values of its uuidv7() defaults in the order
-- they are drawn, now() and clock_timestamp().
pub record Pg : Type 0 where
  pub uuidv7 : ℕ → ℕ
  pub now : ℕ
  pub clock : ℕ
