-- ===== src/Tests/Mails.antt =====
-- internal/api/user.go and internal/worker: a registration, and the link of a mail.
use simplebank.Api.Handler.{done}
use simplebank.Api.Users.{
  RiverClient, CreateUserRequest, verification_accepted, create_user_handler, verify_email_handler,
  queue_verify_email_tx,
}
use simplebank.Api.Users.Registration.{Queues, registration_hides_users}
use simplebank.Errors.{ok}
use simplebank.Prelude.{◌≡◌, ◌∷◌, refl, Option, some, find?, arith, update_where}
use simplebank.Sqlc.Accounts.{username_is}
use simplebank.Sqlc.Models.{Db, User}
use simplebank.Sqlc.Users.{get_user, verified}
use simplebank.Sqlc.VerifyEmails.{create_verify_email, verify_email_row}
use simplebank.Store.Exec.{exec_tx}
use simplebank.Tests.{bank, pg}
use simplebank.Worker.{SendVerifyEmailWorker, Link, verify_body, work_verify_email}
use simplebank.Worker.Mailing.{mailed_link_verifies}

-- A queue that keeps its jobs as messages.
abbrev queue : Option RiverClient
queue = some (record {
  insert_tx = λ args db. ok (tt, record db { published = (0, args.username) ∷ db.published });
  insert_verify = λ args db. (ok tt, record db { published = (0, args.username) ∷ db.published });
  insert_notice = λ args db. (ok tt, record db { published = (1, args.email) ∷ db.published });
})

queue_takes : Queues queue
unfolding queue_verify_email_tx
queue_takes username db = (record db { published = (0, username) ∷ db.published }, refl)

abbrev carol : CreateUserRequest
carol = record {
  username = "carol";
  password = "a long passphrase";
  full_name = "Carol";
  email = "bob";
}

registration_hides_users_example :
    (create_user_handler queue (λ p. ok p) (pg 500) (done carol) bank).0
    ≡ done verification_accepted
registration_hides_users_example =
    registration_hides_users queue queue_takes (λ p. ok p) (pg 500) carol "a long passphrase" bank
      refl refl

abbrev worker : SendVerifyEmailWorker
worker = record { send = λ m. ok tt; base_url = "https://bank"; escape = λ s. s; digest = λ s. s }

abbrev link : Link
link = record { base_url = "https://bank"; id = 500; code = "c0de" }

abbrev mailed : Db
mailed = record bank {
  verify_emails =
      verify_email_row 500 500
        (record { username = "alice"; email = "alice"; secret_code = "c0de" })
      ∷ bank.verify_emails;
}

job_mails :
    work_verify_email worker (pg 500) (ok "c0de") (record { username = "alice" }) bank ≡ record {
      result = ok tt;
      db = mailed;
      mail = some (record {
        to = "alice";
        subject = "Welcome to SimpleBank";
        body = verify_body "alice" link;
      });
    }
unfolding work_verify_email get_user create_verify_email exec_tx
job_mails = refl

mailed_link_verifies_example :
    (u : User) × (db : Db) × (find? (username_is "alice") bank.users ≡ some u)
    × (verify_email_handler worker.digest (pg 600) (some 500) "c0de" mailed ≡ (done tt, db))
    × (db.users ≡ update_where (username_is u.username) verified bank.users)
mailed_link_verifies_example =
    mailed_link_verifies worker (pg 500) (pg 600) "c0de" (record { username = "alice" }) bank link
      "alice" "alice" "Welcome to SimpleBank" job_mails refl (omega arith)
