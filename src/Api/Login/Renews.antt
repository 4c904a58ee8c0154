-- ===== src/Api/Login/Renews.antt =====
-- internal/api/user.go: `renewToken` with a cookie whose session can be rotated.
use simplebank.Api.Cookie.{Exchange, cookie_value, refresh_cookie, on_db}
use simplebank.Api.Handler.{done, given, read, ◌>>=◌, of_result, classified_call}
use simplebank.Api.Login.{
  RenewTokenResponse, verify_refresh, of_verified, renew_with, renew_token, renewed,
  rotation_params, reissued, new_user_response, require_verified,
}
use simplebank.Api.Tokens.{Server, Request, TokenPair}
use simplebank.Api.Steps.{classified_call-done, read-done, on_db-eq, >>=-done}
use simplebank.Errors.{ok}
use simplebank.Prelude.{◌≡◌, ◌∙◌, ap, String, some, true, find?}
use simplebank.Sqlc.Accounts.{username_is}
use simplebank.Sqlc.Models.{Db, User, Session}
use simplebank.Sqlc.Users.{get_user}
use simplebank.Store.Session.{RotateSessionTxParams, SessionReplacement, rotate_session_tx}
use simplebank.Store.Session.Ends.{Rotatable, rotated_sessions, valid_session_rotates}
use simplebank.Token.{Payload, valid}

-- The response to a renewal, and the exchange after it.
abbrev pub renewal_of : TokenPair → User → RenewTokenResponse
renewal_of tokens u = record {
  access_token = tokens.access;
  access_token_expires_at = tokens.access_payload.expires_at;
  user = new_user_response u;
}

abbrev pub replacement : Server → TokenPair → SessionReplacement
replacement server tokens = record {
  id = tokens.refresh_payload.id;
  refresh_token_hash = server.digest tokens.refresh;
  expires_at = tokens.refresh_payload.expires_at;
}

abbrev rotated_exchange : Server → Payload → TokenPair → Exchange → Exchange
rotated_exchange server payload tokens e = record e {
  db = record e.db {
    sessions = rotated_sessions payload.id (replacement server tokens) e.db.sessions;
  };
}

abbrev pub renewed_exchange : Server → Payload → TokenPair → Exchange → Exchange
renewed_exchange server payload tokens e = record (rotated_exchange server payload tokens e) {
  cookie = some (
      refresh_cookie server.session_cookie_secure tokens.refresh tokens.refresh_payload.expires_at);
}

pub get_user_found :
    (username : String) (db : Db) (u : User)
    → find? (username_is username) db.users ≡ some u
    → get_user username db ≡ ok (u, db)
unfolding get_user
get_user_found username db u h = rw h

pub verified_passes :
    (server : Server) (request : Request) (u : User) (e : Exchange)
    → u.is_email_verified ≡ true
    → require_verified server request u e ≡ (done tt, e)
verified_passes server request u e h = rw h

-- A renewal with the cookie's value, of a token that verifies.
module _ (server : Server) (request : Request) (raw : String) (payload : Payload) (u : User)
    (tokens : TokenPair) where
  abbrev rotation : RotateSessionTxParams
  rotation = rotation_params server request raw payload (reissued server request payload)

  -- The user is found verified, a pair of tokens is issued, and the session can be rotated.
  pub record Renewable (e : Exchange) (s : Session) : Type 0 where
    pub token : verify_refresh server request raw ≡ valid payload
    pub found : find? (username_is payload.username) e.db.users ≡ some u
    pub verified : u.is_email_verified ≡ true
    pub issued : reissued server request payload ≡ ok tokens
    pub rotatable : Rotatable rotation e.db s (replacement server tokens)

  pub renews :
      (e : Exchange) (s : Session)
      → Renewable e s
      → renew_token server request (cookie_value raw) e
        ≡ (done (renewed (renewal_of tokens u)), renewed_exchange server payload tokens e)
  unfolding renew_token renew_with ◌>>=◌
  renews e s x = >>=-done (renew_with server request raw) _ (
      >>=-done (given (of_verified (verify_refresh server request raw))) _
        (ap (λ v. (of_verified v, e)) x.token)
      ∙ >>=-done (on_db (classified_call (read (get_user payload.username)))) _ (
          on_db-eq (classified_call (read (get_user payload.username))) e (
            read-done (get_user payload.username) (get_user_found payload.username e.db u x.found)))
      ∙ >>=-done (require_verified server request u) _
          (verified_passes server request u e x.verified)
      ∙ >>=-done (on_db (classified_call (rotate_session_tx rotation))) _ (
          on_db-eq (classified_call (rotate_session_tx rotation)) e (
            classified_call-done (rotate_session_tx rotation)
              (valid_session_rotates rotation e.db s (replacement server tokens) x.rotatable)))
      ∙ >>=-done (given (of_result (reissued server request payload))) _
          (ap (λ v. (of_result v, rotated_exchange server payload tokens e)) x.issued))
