-- ===== src/Worker/Mailing.antt =====
-- internal/worker/verify_email.go and internal/api/user.go: the link of a mail, followed.
use simplebank.Sqlc.Tx.{step-ok}
use simplebank.Api.Steps.{>>=-done, given-done}
use simplebank.Worker.{
  work_for, Link, verify_body, Mail, SendVerifyEmailWorker, code_params, work_verify_email,
  send_link, create_link, welcome,
}
use simplebank.Api.Handler.{fails, done, reject_if, call_or}
use simplebank.Api.Users.{SendVerifyEmailArgs, verify_email_handler, link_error}
use simplebank.Errors.{classify_error, no_rows, Result, ok, err}
use simplebank.Prelude.{
  ==_iff, ap₂, subst, find?_holds, eq_iff, update_where, List, ◌≡◌, ◌∙◌, ◌<◌, ◌+◌, ap, sym, ℕ,
  String, none, some, true, false, find?, arith, refl, ◌∷◌, inl, inr, Option-cases, str_eq,
}
use simplebank.Sqlc.Accounts.{username_is}
use simplebank.Sqlc.Models.{Db, Pg, User, VerifyEmail}
use simplebank.Sqlc.Users.{get_user, verify_user_email, verified}
use simplebank.Sqlc.VerifyEmails.{
  create_verify_email, CreateVerifyEmailParams, update_verify_email, UpdateVerifyEmailParams,
  verify_email_row, is_usable, quarter, used,
}
use simplebank.Store.Exec.{query-ok, query-err, exec_tx, exec_tx-eq-ok, exec_tx-ok}
use simplebank.Store.User.{verify_email_body, VerifyEmailTxResult, verify_email_tx}

-- A code that was created is stored under the drawn id.
create_verify_email-eq-ok :
    (id now : ℕ) (p : CreateVerifyEmailParams) (db : Db) {v : VerifyEmail} {db' : Db}
    → create_verify_email id now p db ≡ ok (v, db')
    → (v ≡ verify_email_row id now p)
      × (db' ≡ record db { verify_emails = verify_email_row id now p ∷ db.verify_emails })
unfolding create_verify_email
create_verify_email-eq-ok id now p db h = ground arith

-- What a job that sent a mail has done.
pub record Mailed (w : SendVerifyEmailWorker) (pg : Pg) (code : String) (job : SendVerifyEmailArgs)
    (db : Db) (m : Mail) (db' : Db) : Type 0 where
  pub user : User
  pub found : find? (username_is job.username) db.users ≡ some user
  pub state : db' ≡ record db {
    verify_emails =
        verify_email_row (pg.uuidv7 0) pg.now (code_params w user code) ∷ db.verify_emails;
  }
  pub mail :
      m ≡ welcome w user (verify_email_row (pg.uuidv7 0) pg.now (code_params w user code)) code

sent :
    (w : SendVerifyEmailWorker) (pg : Pg) (code : String) (user : User) (db : Db)
    (r : Result (Unit {0})) (m : Mail) (db' : Db) (x : Result VerifyEmail × Db)
    → exec_tx (create_verify_email (pg.uuidv7 0) pg.now (code_params w user code)) db ≡ x
    → send_link w user code x ≡ record { result = r; db = db'; mail = some m }
    → (db' ≡ record db {
      verify_emails =
          verify_email_row (pg.uuidv7 0) pg.now (code_params w user code) ∷ db.verify_emails;
    })
      × (m ≡ welcome w user (verify_email_row (pg.uuidv7 0) pg.now (code_params w user code)) code)
sent w pg code user db r m db' (err e, db1) made h = absurd (cc h)
sent w pg code user db r m db' (ok ve, db1) made h =
    let (db2, e, same) =
      exec_tx-eq-ok (create_verify_email (pg.uuidv7 0) pg.now (code_params w user code)) made in
    let (row, state) =
      create_verify_email-eq-ok (pg.uuidv7 0) pg.now (code_params w user code) db e in
    let here : db1 ≡ db' = cc h in
    let mail : welcome w user ve code ≡ m = cc h in
    (
      sym here ∙ same ∙ ap (λ (d : Db). record d { locks = db.locks }) state,
      sym mail ∙ ap (λ v. welcome w user v code) row,
    )

work-Mailed :
    (w : SendVerifyEmailWorker) (pg : Pg) (code : String) (job : SendVerifyEmailArgs) (db : Db)
    {r : Result (Unit {0})} {m : Mail} {db' : Db}
    → work_verify_email w pg (ok code) job db ≡ record { result = r; db = db'; mail = some m }
    → Mailed w pg code job db m db'
unfolding work_verify_email get_user
work-Mailed w pg code job db {r} {m} {db'} h =
    elim (Option-cases (find? (username_is job.username) db.users)) [
      | inl missing ↦ absurd (cc (sym (unknown missing) ∙ h))
      | inr (u, found) ↦
          let (state, mail) = sent w pg code u db r m db' _ refl (sym (known u found) ∙ h) in
          record { user = u; found = found; state = state; mail = mail }
    ]
  where
    unknown :
        find? (username_is job.username) db.users ≡ none
        → work_verify_email w pg (ok code) job db
          ≡ record { result = err no_rows; db = db; mail = none }
    unknown e = ap (work_for w pg (ok code) db) (query-err (get_user job.username) (rw e))

    known :
        (u : User)
        → find? (username_is job.username) db.users ≡ some u
        → work_verify_email w pg (ok code) job db ≡ create_link w pg u (ok code) db
    known u e =
        ap (work_for w pg (ok code) db) (query-ok (get_user job.username) {a = u} {db' = db} (rw e))

-- A code that is stored first, is unused and unexpired, and whose user is there, verifies.
module _ (pg : Pg) (id : ℕ) (secret : String) (v : VerifyEmail) (u : User) (db : Db)
    (rest : List VerifyEmail) (first : db.verify_emails ≡ v ∷ rest)
    (usable : is_usable pg.now (record { id = id; secret_code = secret }) v ≡ true)
    (found : find? (username_is v.username) db.users ≡ some u) where
  abbrev params : UpdateVerifyEmailParams
  params = record { id = id; secret_code = secret }

  abbrev marked : Db
  marked = record db {
    verify_emails = update_where (is_usable pg.now params) used db.verify_emails;
  }

  abbrev pub after_link : Db
  after_link = record marked { users = update_where (username_is v.username) verified db.users }

  mark : update_verify_email pg.now params db ≡ ok (used v, marked)
  unfolding update_verify_email
  mark = rw hit
    where
      hit : find? (is_usable pg.now params) db.verify_emails ≡ some v
      hit = ap (find? (is_usable pg.now params)) first ∙ rw usable

  verify : verify_user_email v.username marked ≡ ok (verified u, after_link)
  unfolding verify_user_email
  verify = rw found

  pub code_verifies :
      verify_email_tx pg (record { id = id; secret_code = secret }) db
      ≡ (ok (record { user = verified u; verify_email = used v }), after_link)
  unfolding verify_email_tx verify_email_body
  code_verifies = exec_tx-ok (verify_email_body pg (record { id = id; secret_code = secret })) (
      step-ok classify_error (update_verify_email pg.now params) _ mark
      ∙ step-ok classify_error (verify_user_email v.username) _ verify)

fresh_usable :
    (id now later : ℕ) (p : CreateVerifyEmailParams)
    → later < now + quarter
    → is_usable later (record { id = id; secret_code = p.secret_code }) (verify_email_row id now p)
      ≡ true
fresh_usable id now later p early =
    ground (arith, (==_iff id id).1 refl, (eq_iff p.secret_code p.secret_code).1 refl)

-- The link of a mail, followed with its id and its code.
follow :
    (digest : String → String) (pg : Pg) (id : ℕ) (code : String) (db : Db)
    {r : VerifyEmailTxResult} {db' : Db}
    → str_eq code "" ≡ false
    → verify_email_tx pg (record { id = id; secret_code = digest code }) db ≡ (ok r, db')
    → verify_email_handler digest pg (some id) code db ≡ (done tt, db')
unfolding verify_email_handler
follow digest pg id code db some_code h =
    given-done id _ db
    ∙ >>=-done (reject_if (str_eq code "") _) _ (rw some_code)
    ∙ >>=-done
        (call_or link_error (verify_email_tx pg (record { id = id; secret_code = digest code }))) _
        (ap (λ x. let (y, d) = x in (elim y [ ok a ↦ done a | err e ↦ fails (link_error e) ], d)) h)
    ∙ refl

-- A link that was mailed verifies: when the job has created a code and handed the mail to the
-- mailer, opening the mail's link, which has the code's id and the code itself, within 15 minutes
-- verifies the address of the job's user, if the code is not the empty text. The user is the one
-- that the job found, and no other row of the users is changed.
pub mailed_link_verifies :
    (w : SendVerifyEmailWorker) (pg later : Pg) (code : String) (job : SendVerifyEmailArgs)
    (db : Db) (link : Link) (name to subject : String) {r : Result (Unit {0})} {db' : Db}
    → work_verify_email w pg (ok code) job db ≡ record {
      result = r;
      db = db';
      mail = some (record { to = to; subject = subject; body = verify_body name link });
    }
    → str_eq code "" ≡ false
    → later.now < pg.now + quarter
    → (u : User) × (db'' : Db) × (find? (username_is job.username) db.users ≡ some u)
      × (verify_email_handler w.digest later (some link.id) link.code db' ≡ (done tt, db''))
      × (db''.users ≡ update_where (username_is u.username) verified db.users)
mailed_link_verifies w pg later code job db link name to subject {r} {db'} h some_code early =
    let x = work-Mailed w pg code job db h in
    let row = verify_email_row (pg.uuidv7 0) pg.now (code_params w x.user code) in
    let made : Link = record { base_url = w.base_url; id = pg.uuidv7 0; code = code } in
    let bodies : verify_body name link ≡ verify_body (w.escape x.user.full_name) made =
      ap (λ (m : Mail). m.body) x.mail in
    let same : link ≡ made = cc bodies in
    let stored : Db = record db { verify_emails = row ∷ db.verify_emails } in
    let named : x.user.username ≡ job.username =
      (eq_iff x.user.username job.username).0
        (find?_holds (username_is job.username) db.users x.user x.found) in
    let owner : find? (username_is x.user.username) db.users ≡ some x.user =
      subst (λ n. find? (username_is n) db.users ≡ some x.user) (sym named) x.found in
    let usable : is_usable later.now (record { id = pg.uuidv7 0; secret_code = w.digest code }) row
        ≡ true =
      fresh_usable (pg.uuidv7 0) pg.now later.now (code_params w x.user code) early in
    (
      x.user,
      after_link later (pg.uuidv7 0) (w.digest code) row x.user stored db.verify_emails refl usable
          owner,
      x.found,
      ap₂ (λ (l : Link) d. verify_email_handler w.digest later (some l.id) l.code d) same x.state
          ∙ follow w.digest later (pg.uuidv7 0) code stored some_code (
              code_verifies later (pg.uuidv7 0) (w.digest code) row x.user stored db.verify_emails
                refl usable owner),
      refl,
    )
