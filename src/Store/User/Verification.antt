-- ===== src/Store/User/Verification.antt =====
-- internal/db/verify_email_tx.go: `VerifyEmailTx`.
use simplebank.Sqlc.Tx.{step-err, step-eq-ok}
use simplebank.Store.Exec.{exec_tx-err, exec_tx-eq-ok}
use simplebank.Sqlc.Accounts.{username_is}
use simplebank.Errors.{record_not_found, no_rows, err, ok, classify_error}
use simplebank.Prelude.{
  ◌<◌, eq_iff, find?_holds, false, find?-update_where_gone, ◌∙◌, ap, inr, arith, inl, ◌≤◌,
  Option-cases, none, some, ◌≡◌, find?, update_where, ℕ, String,
}
use simplebank.Sqlc.Users.{verified, verify_user_email}
use simplebank.Sqlc.VerifyEmails.{used, is_usable, UpdateVerifyEmailParams, update_verify_email}
use simplebank.Sqlc.Models.{User, VerifyEmail, Db, Pg}
use simplebank.Store.User.{
  VerifyEmailTxResult, verify_email_body, VerifyEmailTxParams, verify_email_tx,
}

abbrev code_of : VerifyEmailTxParams → UpdateVerifyEmailParams
code_of arg = record { id = arg.id; secret_code = arg.secret_code }

-- The transaction's state after it used the code and verified the address of its user.
abbrev pub verified_db : Pg → VerifyEmailTxParams → String → Db → Db
verified_db pg arg username db = record db {
  verify_emails = update_where (is_usable pg.now (code_of arg)) used db.verify_emails;
  users = update_where (username_is username) verified db.users;
}

pub record EmailVerified (pg : Pg) (arg : VerifyEmailTxParams) (db : Db) (r : VerifyEmailTxResult)
    (db' : Db) : Type 0 where
  pub code : VerifyEmail
  pub found : find? (is_usable pg.now (code_of arg)) db.verify_emails ≡ some code
  pub code_id : code.id ≡ arg.id
  pub code_secret : code.secret_code ≡ arg.secret_code
  pub code_unused : code.is_used ≡ false
  pub code_unexpired : pg.now < code.expired_at
  pub user : User
  pub user_found : find? (username_is code.username) db.users ≡ some user
  pub answer_code : r.verify_email ≡ used code
  pub answer_user : r.user ≡ verified user
  pub state : db' ≡ verified_db pg arg code.username db

update_verify_email-eq-ok :
    (now : ℕ) (p : UpdateVerifyEmailParams) (db : Db) {v : VerifyEmail} {db' : Db}
    → update_verify_email now p db ≡ ok (v, db')
    → (c : VerifyEmail) × (find? (is_usable now p) db.verify_emails ≡ some c)
      × (v ≡ used c)
      × (db' ≡ record db { verify_emails = update_where (is_usable now p) used db.verify_emails })
unfolding update_verify_email
update_verify_email-eq-ok now p db h =
    elim (Option-cases (find? (is_usable now p) db.verify_emails)) [
      | inl missing ↦ absurd (ground arith)
      | inr (c, found) ↦ (c, found, ground arith, ground arith)
    ]

update_verify_email_gone :
    (now : ℕ) (p : UpdateVerifyEmailParams) (db : Db)
    → find? (is_usable now p) db.verify_emails ≡ none
    → update_verify_email now p db ≡ err no_rows
unfolding update_verify_email
update_verify_email_gone now p db h = ground arith

verify_user_email-eq-ok :
    (username : String) (db : Db) {u : User} {db' : Db}
    → verify_user_email username db ≡ ok (u, db')
    → (v : User) × (find? (username_is username) db.users ≡ some v)
      × (u ≡ verified v)
      × (db' ≡ record db { users = update_where (username_is username) verified db.users })
unfolding verify_user_email
verify_user_email-eq-ok username db h =
    elim (Option-cases (find? (username_is username) db.users)) [
      | inl missing ↦ absurd (ground arith)
      | inr (v, found) ↦ (v, found, ground arith, ground arith)
    ]

-- A verification succeeds only with the id and the secret of a code that is neither used nor
-- expired. It then marks exactly such codes as used, and the address of the code's user, whose
-- row it answers with, as verified.
pub verify_email_tx-EmailVerified :
    (pg : Pg) (arg : VerifyEmailTxParams) (db : Db) {r : VerifyEmailTxResult} {db' : Db}
    → verify_email_tx pg arg db ≡ (ok r, db')
    → EmailVerified pg arg db r db'
unfolding verify_email_tx verify_email_body
verify_email_tx-EmailVerified pg arg db h =
    let (db3, e, same) = exec_tx-eq-ok (verify_email_body pg arg) h in
    let (v, db1, e1, h1) =
      step-eq-ok classify_error (update_verify_email pg.now (code_of arg)) _ e in
    let (u, db2, e2, h2) = step-eq-ok classify_error (verify_user_email v.username) _ h1 in
    let (c, found, row, state) = update_verify_email-eq-ok pg.now (code_of arg) db e1 in
    let usable = find?_holds (is_usable pg.now (code_of arg)) db.verify_emails c found in
    let (w, user_found, user_row, user_state) = verify_user_email-eq-ok v.username db1 e2 in
    record {
      code = c;
      found = found;
      code_id = ground (arith, usable);
      code_secret = (eq_iff c.secret_code arg.secret_code).0 (ground (arith, usable));
      code_unused = ground (arith, usable);
      code_unexpired = ground (arith, usable);
      user = w;
      user_found = ground arith;
      answer_code = ground arith;
      answer_user = ground arith;
      state = ground arith;
    }

-- A code works once: using it again after it was used, at the same time or later, finds no record
-- and changes nothing.
pub code_used_once :
    (pg later : Pg) (arg : VerifyEmailTxParams) (db : Db) {r : VerifyEmailTxResult} {db' : Db}
    → verify_email_tx pg arg db ≡ (ok r, db')
    → pg.now ≤ later.now
    → verify_email_tx later arg db' ≡ (err record_not_found, db')
unfolding verify_email_tx verify_email_body classify_error
code_used_once pg later arg db {r} {db'} h after =
    let x = verify_email_tx-EmailVerified pg arg db h in
    exec_tx-err (verify_email_body later arg) (
      step-err classify_error (update_verify_email later.now (code_of arg)) _ (
        update_verify_email_gone later.now (code_of arg) db' (
          ap (λ (d : Db). find? (is_usable later.now (code_of arg)) d.verify_emails) x.state
          ∙ find?-update_where_gone (is_usable pg.now (code_of arg))
              (is_usable later.now (code_of arg)) used (λ v e. ground arith) (λ v e. ground arith)
              db.verify_emails)))
