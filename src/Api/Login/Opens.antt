-- ===== src/Api/Login/Opens.antt =====
-- internal/api/user.go: a login that succeeded, and the session that it opened.
use simplebank.Api.Cookie.{set_refresh_cookie, Exchange, refresh_cookie, on_db}
use simplebank.Api.Handler.{reply, ◌>>◌, Reply, done, reject_if, ◌>>=◌, given, of_result}
use simplebank.Api.Login.{
  start_session, LoginUserRequest, LoginUserResponse, find_login, login_user, new_user_response,
  session_params, open_session,
}
use simplebank.Api.Tokens.{Server, Request, TokenPair, issue_token_pair, role_depositor}
use simplebank.Api.Login.Hides.{unknown_login, known_login}
use simplebank.Api.Steps.{
  of_result-eq-done, given-done, given-eq-done, reject_if-eq-done, on_db-eq-done, >>=-eq-done,
  classified_call-eq-done,
}
use simplebank.Errors.{ok}
use simplebank.Prelude.{
  Bool, inr, inl, Option-cases, ℕ, ◌≡◌, ◌∙◌, ap, sym, ◌∷◌, String, some, true, false, find?, exists,
  arith,
}
use simplebank.Sqlc.Accounts.{username_is}
use simplebank.Sqlc.Models.{Db, User, Session}
use simplebank.Sqlc.Sessions.{CreateSessionParams, create_session, session_row, session_id_is}
use simplebank.Store.Exec.{exec_tx, exec_tx-eq-ok}

-- The row of the session that a login opens, and its state after the login.
abbrev pub opened_row : Server → Request → TokenPair → User → Session
opened_row server request tokens u =
    session_row request.pg.now (session_params server request tokens u)

abbrev pub opened : Server → Request → TokenPair → User → Exchange → Exchange
opened server request tokens u e = record {
  db = record e.db { sessions = opened_row server request tokens u ∷ e.db.sessions };
  cookie = some (
      refresh_cookie server.session_cookie_secure tokens.refresh tokens.refresh_payload.expires_at);
}

create_session-eq-ok :
    (now : ℕ) (p : CreateSessionParams) (db : Db) {s : Session} {db' : Db}
    → create_session now p db ≡ ok (s, db')
    → (exists (session_id_is p.id) db.sessions ≡ false)
      × (s ≡ session_row now p)
      × (db' ≡ record db { sessions = session_row now p ∷ db.sessions })
unfolding create_session
create_session-eq-ok now p db h = ground arith

open_session-eq-done :
    (server : Server) (request : Request) (tokens : TokenPair) (u : User) (db : Db) {s : Session}
    {db' : Db}
    → open_session server request tokens u db ≡ (done s, db')
    → (exists (session_id_is tokens.refresh_payload.id) db.sessions ≡ false)
      × (s ≡ opened_row server request tokens u)
      × (db' ≡ record db { sessions = opened_row server request tokens u ∷ db.sessions })
open_session-eq-done server request tokens u db h =
    let p = session_params server request tokens u in
    let (db1, made, same) =
      exec_tx-eq-ok (create_session request.pg.now p)
        (classified_call-eq-done (exec_tx (create_session request.pg.now p)) h) in
    let (new, row, state) = create_session-eq-ok request.pg.now p db made in
    (new, row, same ∙ ap (λ (d : Db). record d { locks = db.locks }) state)

find_login-eq-done :
    (username : String) (db : Db) {u : User} {db' : Db}
    → find_login username db ≡ (done u, db')
    → (find? (username_is username) db.users ≡ some u) × (db' ≡ db)
find_login-eq-done username db {u} {db'} h =
    elim (Option-cases (find? (username_is username) db.users)) [
      | inl missing ↦ absurd (cc (unknown_login username db missing, h))
      | inr (v, found) ↦
          let same : ◌≡◌ {A = Reply User × Db} (done v, db) (done u, db') =
            sym (known_login username db v found) ∙ h in
          (found ∙ ap some (cc same), cc same)
    ]

-- The end of a handler that sets the cookie.
pub cookie_set :
    {A : Type 0} (secure : Bool) (raw : String) (expires : ℕ) (a : A) (e : Exchange) {b : A}
    {e' : Exchange}
    → (set_refresh_cookie secure raw expires >> reply a) e ≡ (done b, e')
    → (b ≡ a) × (e' ≡ record e { cookie = some (refresh_cookie secure raw expires) })
unfolding ◌>>=◌
cookie_set secure raw expires a e h = (cc h, cc h)

pub record SessionStarted (server : Server) (request : Request) (user : User) (e : Exchange)
    (response : LoginUserResponse) (e' : Exchange) : Type 0 where
  pub tokens : TokenPair
  pub issued : issue_token_pair server request user.username role_depositor ≡ ok tokens
  pub session_new : exists (session_id_is tokens.refresh_payload.id) e.db.sessions ≡ false
  pub state : e' ≡ opened server request tokens user e
  pub answer : response ≡ record {
    access_token = tokens.access;
    access_token_expires_at = tokens.access_payload.expires_at;
    session_id = tokens.refresh_payload.id;
    user = new_user_response user;
  }

start_session-SessionStarted :
    (server : Server) (request : Request) (u : User) (e : Exchange) {response : LoginUserResponse}
    {e' : Exchange}
    → start_session server request u e ≡ (done response, e')
    → SessionStarted server request u e response e'
unfolding start_session
start_session-SessionStarted server request u e h =
    let (tokens, e1, s1, h1) =
      >>=-eq-done (given (of_result (issue_token_pair server request u.username role_depositor))) _
        h in
    let (issued, same1) = given-eq-done _ s1 in
    let (s, e2, s2, h2) = >>=-eq-done (on_db (open_session server request tokens u)) _ h1 in
    let (db2, made, same2) = on_db-eq-done (open_session server request tokens u) s2 in
    let (new, row, state) = open_session-eq-done server request tokens u e1.db made in
    let (answer, same3) = cookie_set _ _ _ _ e2 h2 in
    record {
      tokens = tokens;
      issued = of_result-eq-done (issue_token_pair server request u.username role_depositor) issued;
      session_new =
          ap (λ (x : Exchange). exists (session_id_is tokens.refresh_payload.id) x.db.sessions)
            (sym same1)
          ∙ new;
      state = grind (arith, same1, same2, same3, state);
      answer = answer ∙ rw row;
    }

authenticated :
    (server : Server) (request : Request) (req : LoginUserRequest) (e : Exchange)
    {response : LoginUserResponse} {e' : Exchange}
    → login_user server request (done req) e ≡ (done response, e')
    → (u : User) × (find? (username_is req.username) e.db.users ≡ some u)
      × (server.check req.password u.hashed_password ≡ true)
      × (u.is_email_verified ≡ true)
      × (start_session server request u e ≡ (done response, e'))
unfolding login_user
authenticated server request req e {response} {e'} h =
    let (u, e1, s1, h1) =
      >>=-eq-done (on_db (find_login req.username)) _ (sym (given-done req _ e) ∙ h) in
    let (db1, looked, same1) = on_db-eq-done (find_login req.username) s1 in
    let (found, read_only) = find_login-eq-done req.username e.db looked in
    let (_, e2, s2, h2) = >>=-eq-done (reject_if _ _) _ h1 in
    let (right, same2) = reject_if-eq-done _ _ s2 in
    let (_, e3, s3, h3) = >>=-eq-done (reject_if _ _) _ h2 in
    let (verified, same3) = reject_if-eq-done _ _ s3 in
    let unread : e3 ≡ e = same3 ∙ same2 ∙ same1 ∙ ap (λ (d : Db). record e { db = d }) read_only in
    (u, found, ground arith, ground arith, ap (start_session server request u) (sym unread) ∙ h3)

-- A login succeeds only for a user whose password fits and whose address is verified. It then
-- stores one session, under an id that no other has, with the digest of the refresh token, sets
-- the cookie to the token itself, and replies with the access token and the session's id.
pub login_user-SessionStarted :
    (server : Server) (request : Request) (req : LoginUserRequest) (e : Exchange)
    {response : LoginUserResponse} {e' : Exchange}
    → login_user server request (done req) e ≡ (done response, e')
    → (u : User) × (find? (username_is req.username) e.db.users ≡ some u)
      × (server.check req.password u.hashed_password ≡ true)
      × (u.is_email_verified ≡ true)
      × SessionStarted server request u e response e'
login_user-SessionStarted server request req e h =
    let (u, found, right, verified, rest) = authenticated server request req e h in
    (u, found, right, verified, start_session-SessionStarted server request u e rest)
