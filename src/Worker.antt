-- ===== src/Worker.antt =====
-- internal/worker/verify_email.go and internal/worker/registration_notice.go: the two jobs.
pub mod Mailing
use simplebank.Api.Users.{SendVerifyEmailArgs, SendRegistrationNoticeArgs}
use simplebank.Errors.{Result, ok, err, Error}
use simplebank.Prelude.{ℕ, String, Option, none, some}
use simplebank.Sqlc.Models.{Db, Pg, User, VerifyEmail}
use simplebank.Sqlc.Users.{get_user}
use simplebank.Sqlc.VerifyEmails.{create_verify_email, CreateVerifyEmailParams}
use simplebank.Store.Exec.{exec_tx, query}

-- The link of `Sprintf("%s/verify-email?id=%s&code=%s", …)`.
pub record Link : Type 0 where
  pub base_url : String
  pub id : ℕ
  pub code : String

-- The text of a mail: the escaped name and the link in their template, or the notice.
pub data Body : Type 0 where
  verify_body : String → Link → Body
  registration_notice_body : Body

pub record Mail : Type 0 where
  pub to : String
  pub subject : String
  pub body : Body

-- What a job returned, and the mail that it handed to the mailer.
pub record Worked : Type 0 where
  pub result : Result (Unit {0})
  pub db : Db
  pub mail : Option Mail

-- The configuration of the workers. `send` is what the mailer answers, `escape` is
-- `html.EscapeString`, `digest` is `secret.Digest`.
pub record SendVerifyEmailWorker : Type 0 where
  pub send : Mail → Result (Unit {0})
  pub base_url : String
  pub escape : String → String
  pub digest : String → String

module _ (w : SendVerifyEmailWorker) where
  abbrev pub welcome : User → VerifyEmail → String → Mail
  welcome user ve code = record {
    to = user.email;
    subject = "Welcome to SimpleBank";
    body =
        verify_body (w.escape user.full_name)
          (record { base_url = w.base_url; id = ve.id; code = code });
  }

  abbrev pub code_params : User → String → CreateVerifyEmailParams
  code_params user code = record {
    username = user.username;
    email = user.email;
    secret_code = w.digest code;
  }

  abbrev pub send_link : User → String → Result VerifyEmail × Db → Worked
  send_link user code (err e, db) = record { result = err e; db = db; mail = none }
  send_link user code (ok ve, db) = record {
    result = w.send (welcome user ve code);
    db = db;
    mail = some (welcome user ve code);
  }

  abbrev pub create_link : Pg → User → Result String → Db → Worked
  create_link pg user (err e) db = record { result = err e; db = db; mail = none }
  create_link pg user (ok code) db =
      send_link user code
        (exec_tx (create_verify_email (pg.uuidv7 0) pg.now (code_params user code)) db)

  abbrev pub work_for : Pg → Result String → Db → Result User → Worked
  work_for pg code db (err e) = record { result = err e; db = db; mail = none }
  work_for pg code db (ok user) = create_link pg user code db

  -- `code` is what `secret.Token(32)` answers. An error is wrapped, and stays the same error to
  -- `errors.Is`.
  unfoldable pub work_verify_email : Pg → Result String → SendVerifyEmailArgs → Db → Worked
  work_verify_email pg code job db = work_for pg code db (query (get_user job.username) db)

unfoldable pub work_registration_notice :
    (Mail → Result (Unit {0})) → SendRegistrationNoticeArgs → Result (Unit {0})
work_registration_notice send job = send (record {
  to = job.email;
  subject = "SimpleBank registration attempt";
  body = registration_notice_body;
})
