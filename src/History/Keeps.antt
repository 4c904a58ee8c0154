-- ===== src/History/Keeps.antt =====
-- internal/db: the calls that write neither accounts, entries nor transfers.
use simplebank.Store.Exec.{exec_tx-err, exec_tx-ok, exec_tx}
use simplebank.Store.Notification.{mark_all_notifications_read_body, mark_notification_read_body}
use simplebank.Store.Session.{RotateSessionTxParams, rotate_session_body}
use simplebank.Store.User.{VerifyEmailTxParams, create_user_body, verify_email_body}
use simplebank.Sqlc.Notifications.{
  mark_all_notifications_read, mark_notification_read, count_unread_notifications,
  lock_notification_owner,
}
use simplebank.Sqlc.Sessions.{
  CreateSessionParams, RotateSessionParams, block_session, rotate_session, get_session_for_update,
  create_session,
}
use simplebank.Sqlc.VerifyEmails.{
  UpdateVerifyEmailParams, CreateVerifyEmailParams, update_verify_email, create_verify_email,
}
use simplebank.Sqlc.Users.{CreateUserParams, verify_user_email, create_user}
use simplebank.Errors.{err, ok, Result, Error}
use simplebank.Sqlc.Models.{Transfer, Entry, Pg, Account, Db}
use simplebank.Prelude.{refl, none, ap, ◌∙◌, String, ℕ, arith, ◌≡◌, Bool, List}
use simplebank.Sqlc.Tx.{map_error-eq-ok, lift, fail_if, >>=-eq-ok, map_error, pure, Tx, ◌>>=◌}

abbrev pub View : Type 0
View = List Account × List Entry × List Transfer

abbrev pub view : Db → View
view db = (db.accounts, db.entries, db.transfers)

-- A step that succeeds leaves the three tables as they were.
pub record Keeps {A : Type 0} (m : Tx A) : Type 0 where
  pub at : (db : Db) (a : A) (db' : Db) → m db ≡ ok (a, db') → view db' ≡ view db

pub map_error-Keeps : {A : Type 0} (g : Error → Error) (m : Tx A) → Keeps m → Keeps (map_error g m)
map_error-Keeps g m k = record { at = λ db a db' h. k.at db a db' (map_error-eq-ok g m h) }

pub >>=-Keeps :
    {A B : Type 0} (m : Tx A) (f : A → Tx B) → Keeps m → ((a : A) → Keeps (f a)) → Keeps (m >>= f)
>>=-Keeps m f km kf = record {
  at = λ db b db'' h.
      let (a, db', e, rest) = >>=-eq-ok m f h in (kf a).at db' b db'' rest ∙ km.at db a db' e;
}

pub pure-Keeps : {A : Type 0} (a : A) → Keeps (pure a)
pure-Keeps a = record { at = λ db b db' h. ground arith }

pub fail_if-Keeps : (c : Bool) (e : Error) → Keeps (fail_if c e)
fail_if-Keeps c e = record { at = λ db b db' h. ground arith }

pub lift-Keeps : {A : Type 0} (r : Result A) → Keeps (lift r)
lift-Keeps (ok a) = record { at = λ db b db' h. ground arith }
lift-Keeps (err e) = record { at = λ db b db' h. cc }

-- So does the transaction, committed or rolled back.
pub exec_tx-view : {A : Type 0} (m : Tx A) (db : Db) → Keeps m → view (exec_tx m db).1 ≡ view db
exec_tx-view {A} m db k = go (m db) refl
  where
    go : (r : Result (A × Db)) → m db ≡ r → view (exec_tx m db).1 ≡ view db
    go (ok (a, db')) e = ap (λ (x : Result A × Db). view x.1) (exec_tx-ok m e) ∙ k.at db a db' e
    go (err x) e = ap (λ (x : Result A × Db). view x.1) (exec_tx-err m e)

create_user-Keeps : (id now : ℕ) (p : CreateUserParams) → Keeps (create_user id now p)
unfolding create_user
create_user-Keeps id now p = record { at = λ db a db' h. ground arith }

pub create_verify_email-Keeps :
    (id now : ℕ) (p : CreateVerifyEmailParams) → Keeps (create_verify_email id now p)
unfolding create_verify_email
create_verify_email-Keeps id now p = record { at = λ db a db' h. ground arith }

update_verify_email-Keeps :
    (now : ℕ) (p : UpdateVerifyEmailParams) → Keeps (update_verify_email now p)
unfolding update_verify_email
update_verify_email-Keeps now p = record { at = λ db a db' h. ground arith }

verify_user_email-Keeps : (u : String) → Keeps (verify_user_email u)
unfolding verify_user_email
verify_user_email-Keeps u = record { at = λ db a db' h. ground arith }

pub create_session-Keeps : (now : ℕ) (p : CreateSessionParams) → Keeps (create_session now p)
unfolding create_session
create_session-Keeps now p = record { at = λ db a db' h. ground arith }

get_session_for_update-Keeps : (id : ℕ) → Keeps (get_session_for_update id)
unfolding get_session_for_update
get_session_for_update-Keeps id = record { at = λ db a db' h. ground arith }

rotate_session-Keeps : (p : RotateSessionParams) → Keeps (rotate_session p)
unfolding rotate_session
rotate_session-Keeps p = record { at = λ db a db' h. ground arith }

pub block_session-Keeps : (id : ℕ) → Keeps (block_session id)
unfolding block_session
block_session-Keeps id = record { at = λ db a db' h. ground arith }

lock_notification_owner-Keeps : (owner : String) → Keeps (lock_notification_owner owner)
unfolding lock_notification_owner
lock_notification_owner-Keeps owner = record { at = λ db a db' h. ground arith }

count_unread_notifications-Keeps : (owner : String) → Keeps (count_unread_notifications owner)
unfolding count_unread_notifications
count_unread_notifications-Keeps owner = record { at = λ db a db' h. ground arith }

mark_notification_read-Keeps :
    (now id : ℕ) (owner : String) → Keeps (mark_notification_read now id owner)
unfolding mark_notification_read
mark_notification_read-Keeps now id owner = record { at = λ db a db' h. ground arith }

mark_all_notifications_read-Keeps :
    (now : ℕ) (owner : String) → Keeps (mark_all_notifications_read now owner)
unfolding mark_all_notifications_read
mark_all_notifications_read-Keeps now owner = record { at = λ db a db' h. ground arith }

ruleset keeping = (
  map_error-Keeps, >>=-Keeps, pure-Keeps, fail_if-Keeps, lift-Keeps, create_user-Keeps,
  update_verify_email-Keeps, verify_user_email-Keeps, get_session_for_update-Keeps,
  rotate_session-Keeps, lock_notification_owner-Keeps, count_unread_notifications-Keeps,
  mark_notification_read-Keeps, mark_all_notifications_read-Keeps,
)

pub verify_email_body-Keeps :
    (pg : Pg) (arg : VerifyEmailTxParams) → Keeps (verify_email_body pg arg)
unfolding verify_email_body
verify_email_body-Keeps pg arg = search keeping

pub rotate_session_body-Keeps : (arg : RotateSessionTxParams) → Keeps (rotate_session_body arg)
unfolding rotate_session_body
rotate_session_body-Keeps arg = search keeping depth 9

pub mark_notification_read_body-Keeps :
    (pg : Pg) (owner : String) (id : ℕ) → Keeps (mark_notification_read_body pg owner id)
unfolding mark_notification_read_body
mark_notification_read_body-Keeps pg owner id = search keeping depth 7

pub mark_all_notifications_read_body-Keeps :
    (pg : Pg) (owner : String) → Keeps (mark_all_notifications_read_body pg owner)
unfolding mark_all_notifications_read_body
mark_all_notifications_read_body-Keeps pg owner = search keeping depth 7

pub create_user_body-Keeps :
    (pg : Pg) (p : CreateUserParams)
    → Keeps (create_user_body pg (record { user = p; after_create = none }))
unfolding create_user_body
create_user_body-Keeps pg p = search keeping
