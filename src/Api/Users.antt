-- ===== src/Api/Users.antt =====
-- internal/api/user.go: `createUser`, `verifyEmail` and `resendVerifyEmail`.
pub mod Registration
use simplebank.Api.Errors.{Failure, store, new_api_error}
use simplebank.Api.Handler.{
  Reply, done, fails, Handler, ◌>>=◌, ◌>>◌, reply, given, reject_if, call_or, of_result, parsed,
  read,
}
use simplebank.Errors.{
  Error, Result, ok, err, classify_error, is_record_not_found, username_exists, email_exists,
}
use simplebank.Prelude.{ℕ, String, false, true, Option, none, some, if◌then◌else◌, str_eq}
use simplebank.Sqlc.Models.{User, Pg, Db}
use simplebank.Sqlc.Tx.{Tx}
use simplebank.Sqlc.Users.{get_user_by_email, CreateUserParams}
use simplebank.Store.User.{CreateUserTxParams, create_user_tx, verify_email_tx}

pub record CreateUserRequest : Type 0 where
  pub username : String
  pub password : String
  pub full_name : String
  pub email : String

-- The arguments of the jobs of internal/worker.
pub record SendVerifyEmailArgs : Type 0 where
  pub username : String

pub record SendRegistrationNoticeArgs : Type 0 where
  pub email : String

-- The client of river: a job is inserted in a transaction, or on its own.
pub record RiverClient : Type 0 where
  pub insert_tx : SendVerifyEmailArgs → Tx (Unit {0})
  pub insert_verify : SendVerifyEmailArgs → Db → Result (Unit {0}) × Db
  pub insert_notice : SendRegistrationNoticeArgs → Db → Result (Unit {0}) × Db

-- `verificationAccepted`, with status 202.
pub data Accepted : Type 0 where
  verification_accepted : Accepted

module _ (river : Option RiverClient) where
  unfoldable pub queue_verify_email_tx : String → Tx (Unit {0})
  queue_verify_email_tx username db = elim river [
    | none ↦ ok (tt, db)
    | some client ↦ client.insert_tx (record { username = username }) db
  ]

  unfoldable pub queue_verify_email : String → Db → Result (Unit {0}) × Db
  queue_verify_email username db = elim river [
    | none ↦ (ok tt, db)
    | some client ↦ client.insert_verify (record { username = username }) db
  ]

  unfoldable pub queue_registration_notice : String → Db → Result (Unit {0}) × Db
  queue_registration_notice email db = elim river [
    | none ↦ (ok tt, db)
    | some client ↦ client.insert_notice (record { email = email }) db
  ]

  -- An error of the queue is logged, and the request accepted all the same.
  abbrev pub log_error : (Db → Result (Unit {0}) × Db) → Handler Accepted
  log_error m db = (done verification_accepted, (m db).1)

  -- The errors of `CreateUserTx`, classified.
  abbrev pub accept_conflict : String → Error → Handler Accepted
  accept_conflict email username_exists = reply verification_accepted
  accept_conflict email email_exists = log_error (queue_registration_notice email)
  accept_conflict email e = given (fails (store e))

  -- The reply to what `CreateUserTx` returned.
  abbrev pub answer_created : String → Result User × Db → Reply Accepted × Db
  answer_created email (ok _, db) = (done verification_accepted, db)
  answer_created email (err e, db) = accept_conflict email (classify_error e) db

  abbrev pub create_params : CreateUserRequest → String → CreateUserTxParams
  create_params req hashed = record {
    user = record {
      username = req.username;
      hashed_password = hashed;
      full_name = req.full_name;
      email = req.email;
    };
    after_create = some (λ u. queue_verify_email_tx u.username);
  }

  -- `hash` is `password.Hash`.
  unfoldable pub create_user_handler :
      (String → Result String) → Pg → Reply CreateUserRequest → Handler Accepted
  unfolding queue_verify_email_tx queue_registration_notice
  create_user_handler hash pg bound = do
    req ← given bound
    hashed ← given (of_result (hash req.password))
    λ db. answer_created req.email (create_user_tx pg (create_params req hashed) db)

  -- An address that is not known, or is verified, is answered as any other.
  unfoldable pub resend_verify_email : Reply String → Handler Accepted
  unfolding queue_verify_email
  resend_verify_email bound = do
    email ← given bound
    λ db. elim (read (get_user_by_email email) db).0 [
      | err e ↦
          if is_record_not_found (classify_error e)
          then (done verification_accepted, db)
          else (fails (store (classify_error e)), db)
      | ok user ↦ elim user.is_email_verified [
        | true ↦ (done verification_accepted, db)
        | false ↦ log_error (queue_verify_email user.username) db
      ]
    ]

abbrev pub invalid_verification_link : String → Failure
invalid_verification_link message = new_api_error 400 "invalid_verification_link" message

abbrev pub link_error : Error → Failure
link_error e =
    if is_record_not_found e
    then invalid_verification_link "invalid or expired verification link"
    else store e

-- `id` is the parsed query parameter; the reply is that the address is verified.
unfoldable pub verify_email_handler :
    (String → String) → Pg → Option ℕ → String → Handler (Unit {0})
verify_email_handler digest pg id code = do
  link ← given (parsed id (invalid_verification_link "invalid id"))
  reject_if (str_eq code "") (invalid_verification_link "invalid or expired verification link")
  _ ← call_or link_error (verify_email_tx pg (record { id = link; secret_code = digest code }))
  reply tt
