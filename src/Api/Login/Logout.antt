-- ===== src/Api/Login/Logout.antt =====
-- internal/api/user.go: `renewToken` after `logoutUser`.
use simplebank.Api.Cookie.{Exchange, cookie_value, cleared_cookie, on_db}
use simplebank.Api.Errors.{store}
use simplebank.Api.Handler.{done, fails, given, read, classified_call}
use simplebank.Api.Login.{
  logout_verified, verify_refresh, of_verified, logout_user, renew_token, renew_with, end_session,
  rotation_params, reissued, require_verified,
}
use simplebank.Api.Tokens.{Server, Request}
use simplebank.Api.Login.Renews.{get_user_found, verified_passes}
use simplebank.Api.Steps.{classified_call-fails, on_db-eq, >>=-done, >>=-fails, read-done}
use simplebank.Errors.{Result, ok, err, no_rows, invalid_session, classify_error}
use simplebank.Prelude.{
  ◌≡◌, ◌∙◌, ap, String, none, some, true, find?, find?-update_where, refl, ℕ, inl, inr,
  Option-cases, update_where,
}
use simplebank.Sqlc.Accounts.{username_is}
use simplebank.Sqlc.Models.{Db, User, Session}
use simplebank.Sqlc.Sessions.{block_session, blocked, session_id_is}
use simplebank.Sqlc.Users.{get_user}
use simplebank.Store.Exec.{exec_tx, exec_tx-ok, exec_tx-err}
use simplebank.Store.Session.{RotateSessionTxParams, rotate_session_tx}
use simplebank.Store.Session.Ends.{open_invalid, open_missing}
use simplebank.Token.{Payload, valid}

abbrev block : ℕ → Db → Db
block id db = record db { sessions = update_where (session_id_is id) blocked db.sessions }

-- Blocking a session that is there, and one that is not.
block_present :
    (id : ℕ) (db : Db) (s : Session)
    → find? (session_id_is id) db.sessions ≡ some s
    → exec_tx (block_session id) db ≡ (ok (blocked s), block id db)
unfolding block_session
block_present id db s h = exec_tx-ok (block_session id) {a = blocked s} {db' = block id db} (rw h)

block_absent :
    (id : ℕ) (db : Db)
    → find? (session_id_is id) db.sessions ≡ none
    → exec_tx (block_session id) db ≡ (err no_rows, db)
unfolding block_session
block_absent id db h = exec_tx-err (block_session id) (rw h)

-- After that a rotation of the session is refused.
record Blocked (id : ℕ) (db : Db) : Type 0 where
  pub answer : Result Session
  pub after : Db
  pub run : exec_tx (block_session id) db ≡ (answer, after)
  pub users : after.users ≡ db.users
  pub refused :
      (arg : RotateSessionTxParams)
      → arg.id ≡ id
      → rotate_session_tx arg after ≡ (err invalid_session, after)
  pub ends :
      (server : Server) (request : Request) (e : Exchange)
      → end_session server request answer e
        ≡ (done tt, record e { cookie = some (cleared_cookie server.session_cookie_secure) })

blocks : (id : ℕ) (db : Db) → Blocked id db
unfolding classify_error
blocks id db = elim (Option-cases (find? (session_id_is id) db.sessions)) [
  | inl missing ↦ record {
    answer = err no_rows;
    after = db;
    run = block_absent id db missing;
    users = refl;
    refused = λ arg same.
        open_missing arg db (ap (λ i. find? (session_id_is i) db.sessions) same ∙ missing);
    ends = λ server request e. refl;
  }
  | inr (s, found) ↦ record {
    answer = ok (blocked s);
    after = block id db;
    run = block_present id db s found;
    users = refl;
    refused = λ arg same.
        open_invalid arg (block id db) (blocked s)
          (ap (λ i. find? (session_id_is i) (block id db).sessions) same
            ∙ find?-update_where (session_id_is id) blocked (λ y. refl) db.sessions s found)
          refl;
    ends = λ server request e. refl;
  }
]

renewal_refused :
    (server : Server) (later : Request) (raw : String) (p : Payload) (u : User) (e : Exchange)
    → verify_refresh server later raw ≡ valid p
    → find? (username_is p.username) e.db.users ≡ some u
    → u.is_email_verified ≡ true
    → ((arg : RotateSessionTxParams)
        → arg.id ≡ p.id
        → rotate_session_tx arg e.db ≡ (err invalid_session, e.db))
    → renew_token server later (cookie_value raw) e ≡ (fails (store invalid_session), e)
unfolding renew_token renew_with classify_error
renewal_refused server later raw p u e token found verified refused =
    >>=-fails (renew_with server later raw) _ (
      >>=-done (given (of_verified (verify_refresh server later raw))) _
        (ap (λ v. (of_verified v, e)) token)
      ∙ >>=-done (on_db (classified_call (read (get_user p.username)))) _ (
          on_db-eq (classified_call (read (get_user p.username))) e
            (read-done (get_user p.username) (get_user_found p.username e.db u found)))
      ∙ >>=-done (require_verified server later u) _ (verified_passes server later u e verified)
      ∙ >>=-fails
          (on_db (
            classified_call
              (rotate_session_tx (rotation_params server later raw p (reissued server later p)))))
          _
          (on_db-eq
            (classified_call
              (rotate_session_tx (rotation_params server later raw p (reissued server later p))))
            e
            (classified_call-fails
              (rotate_session_tx (rotation_params server later raw p (reissued server later p)))
              (refused (rotation_params server later raw p (reissued server later p)) refl))))

-- A logout ends its session: with a cookie whose refresh token verifies, the logout answers, sets
-- the cleared cookie, and leaves tables on which the token cannot be renewed. A renewal with it,
-- for a user who is there and verified, is refused as an invalid session and changes nothing.
pub logout_ends_session :
    (server : Server) (first later : Request) (raw : String) (p : Payload) (u : User) (e : Exchange)
    → verify_refresh server first raw ≡ valid p
    → verify_refresh server later raw ≡ valid p
    → find? (username_is p.username) e.db.users ≡ some u
    → u.is_email_verified ≡ true
    → (e' : Exchange) × (logout_user server first (cookie_value raw) e ≡ (done tt, e'))
      × (e'.cookie ≡ some (cleared_cookie server.session_cookie_secure))
      × (renew_token server later (cookie_value raw) e' ≡ (fails (store invalid_session), e'))
unfolding logout_user
logout_ends_session server first later raw p u e now again found verified =
    let b = blocks p.id e.db in
    let e' : Exchange = record {
      db = b.after;
      cookie = some (cleared_cookie server.session_cookie_secure);
    } in
    (
      e',
      ap (λ v. logout_verified server first v e) now
          ∙ ap
              (λ (x : Result Session × Db).
                let (r, d) = x in end_session server first r (record e { db = d }))
              b.run
          ∙ b.ends server first (record e { db = b.after }),
      refl,
      renewal_refused server later raw p u e' again
          (ap (find? (username_is p.username)) b.users ∙ found) verified b.refused,
    )
