-- ===== src/Tests/Users.antt =====
-- The session of the small bank, rotated, and its verification code, used.
use simplebank.Store.Session.Rotation.{rotate_session_tx-Rotatable, old_token_refused}
use simplebank.Store.Session.Ends.{Rotatable, replaced, rotated_sessions}
use simplebank.Sqlc.Sessions.{rotate_session, get_session_for_update}
use simplebank.Store.Exec.{exec_tx}
use simplebank.Sqlc.VerifyEmails.{update_verify_email, used}
use simplebank.Sqlc.Users.{verify_user_email, verified}
use simplebank.Prelude.{eq_iff, String, refl, arith, ◌≢◌, ◌≡◌}
use simplebank.Errors.{record_not_found, invalid_session, err, ok}
use simplebank.Store.User.Verification.{
  code_used_once, verify_email_tx-EmailVerified, verified_db, EmailVerified,
}
use simplebank.Store.User.{verify_email_tx, VerifyEmailTxResult, VerifyEmailTxParams}
use simplebank.Sqlc.Models.{Session, Db}
use simplebank.Store.Session.{rotate_session_tx, RotateSessionTxParams, SessionReplacement}
use simplebank.Tests.{code, session, user, pg, bank}

abbrev second : SessionReplacement
second = record { id = 60; refresh_token_hash = "second"; expires_at = 9_000 }

abbrev rotation : RotateSessionTxParams
rotation = record {
  id = 60;
  username = "alice";
  refresh_token_hash = "first";
  now = 100;
  new_session = ok second;
}

abbrev rotated_bank : Db
rotated_bank = record bank { sessions = rotated_sessions 60 second bank.sessions }

rotation_succeeds : rotate_session_tx rotation bank ≡ (ok (replaced second session), rotated_bank)
unfolding rotate_session_tx exec_tx get_session_for_update rotate_session
rotation_succeeds = refl

rotate_session_tx-Rotatable_example :
    (s : Session) × (n : SessionReplacement) × Rotatable rotation bank s n
    × (replaced second session ≡ replaced n s)
    × (rotated_bank ≡ record bank { sessions = rotated_sessions 60 n bank.sessions })
rotate_session_tx-Rotatable_example = rotate_session_tx-Rotatable rotation bank rotation_succeeds

token_is_new : ◌≢◌ {A = String} "second" "first"
token_is_new e = cc ((eq_iff "second" "first").1 e)

old_token_refused_example :
    rotate_session_tx rotation rotated_bank ≡ (err invalid_session, rotated_bank)
old_token_refused_example =
    old_token_refused rotation rotation bank rotation_succeeds refl refl token_is_new

abbrev link : VerifyEmailTxParams
link = record { id = 70; secret_code = "secret" }

abbrev verified_bank : Db
verified_bank = verified_db (pg 200) link "alice" bank

abbrev verified_alice : VerifyEmailTxResult
verified_alice = record { user = verified (user 1 "alice"); verify_email = used code }

link_works : verify_email_tx (pg 200) link bank ≡ (ok verified_alice, verified_bank)
unfolding verify_email_tx exec_tx update_verify_email verify_user_email
link_works = refl

verify_email_tx-EmailVerified_example :
    EmailVerified (pg 200) link bank verified_alice verified_bank
verify_email_tx-EmailVerified_example = verify_email_tx-EmailVerified (pg 200) link bank link_works

code_used_once_example :
    verify_email_tx (pg 300) link verified_bank ≡ (err record_not_found, verified_bank)
code_used_once_example = code_used_once (pg 200) (pg 300) link bank link_works (omega arith)
