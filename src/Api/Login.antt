-- ===== src/Api/Login.antt =====
-- internal/api/user.go: `loginUser`, `renewToken` and `logoutUser`.
pub mod Hides
pub mod Opens
pub mod Pairs
pub mod Renews
pub mod RoundTrip
pub mod Logout
use simplebank.Api.Cookie.{
  Exchange, CookieRead, cookie_value, no_cookie, bad_cookie, set_refresh_cookie,
  clear_refresh_cookie, on_db,
}
use simplebank.Api.Errors.{Failure, store, expired_token, invalid_token, new_api_error}
use simplebank.Api.Handler.{
  Reply, done, fails, Action, Handler, ◌>>=◌, ◌>>◌, reply, given, reject_if, call_or,
  classified_call, of_result, read,
}
use simplebank.Api.Tokens.{
  TokenPair, Server, Request, role_depositor, issue_token_pair_with_refresh_id, issue_token_pair,
}
use simplebank.Errors.{Error, Result, ok, err, classify_error, is_record_not_found}
use simplebank.Prelude.{ℕ, ◌==◌, String, Bool, false, true, not, if◌then◌else◌}
use simplebank.Sqlc.Models.{Pg, Session, User}
use simplebank.Sqlc.Sessions.{CreateSessionParams, create_session, block_session}
use simplebank.Sqlc.Users.{get_user}
use simplebank.Store.Exec.{exec_tx}
use simplebank.Store.Session.{SessionReplacement, RotateSessionTxParams, rotate_session_tx}
use simplebank.Token.{
  Jwt, JwtMaker, Draw, Payload, Verified, valid, refuses, err_expired_token, err_invalid_token,
  access, refresh, create_token, create_token_with_id, verify_token,
}

pub record UserResponse : Type 0 where
  pub username : String
  pub full_name : String
  pub email : String
  pub is_email_verified : Bool
  pub created_at : ℕ

abbrev pub new_user_response : User → UserResponse
new_user_response u = record {
  username = u.username;
  full_name = u.full_name;
  email = u.email;
  is_email_verified = u.is_email_verified;
  created_at = u.created_at;
}

pub record LoginUserRequest : Type 0 where
  pub username : String
  pub password : String

pub record LoginUserResponse : Type 0 where
  pub access_token : String
  pub access_token_expires_at : ℕ
  pub session_id : ℕ
  pub user : UserResponse

pub record RenewTokenResponse : Type 0 where
  pub access_token : String
  pub access_token_expires_at : ℕ
  pub user : UserResponse

abbrev pub invalid_credentials : Failure
invalid_credentials = new_api_error 401 "invalid_credentials" "invalid credentials"

abbrev pub email_verification_required : Failure
email_verification_required =
    new_api_error 403 "email_verification_required" "email verification required"

-- An unknown username is answered as a wrong password is.
unfoldable pub login_lookup_error : Error → Failure
login_lookup_error e =
    if is_record_not_found (classify_error e) then invalid_credentials else store e

abbrev pub of_verified : Verified → Reply Payload
of_verified (valid p) = done p
of_verified (refuses err_expired_token) = fails expired_token
of_verified (refuses err_invalid_token) = fails invalid_token

abbrev pub find_login : String → Handler User
find_login username = call_or login_lookup_error (read (get_user username))

pub data Renewed : Type 0 where
  no_content : Renewed
  renewed : RenewTokenResponse → Renewed

module _ (server : Server) (request : Request) where
  abbrev pub session_params : TokenPair → User → CreateSessionParams
  session_params tokens user = record {
    id = tokens.refresh_payload.id;
    username = user.username;
    refresh_token = server.digest tokens.refresh;
    user_agent = request.user_agent;
    client_ip = request.real_ip;
    is_blocked = false;
    expires_at = tokens.refresh_payload.expires_at;
  }

  -- The session's row is a transaction of its own.
  abbrev pub open_session : TokenPair → User → Handler Session
  open_session tokens user =
      classified_call (exec_tx (create_session request.pg.now (session_params tokens user)))

  -- What follows once the password and the address were found good.
  unfoldable pub start_session : User → Action Exchange LoginUserResponse
  unfolding issue_token_pair
  start_session user = do
    tokens ← given (of_result (issue_token_pair server request user.username role_depositor))
    session ← on_db (open_session tokens user)
    set_refresh_cookie server.session_cookie_secure tokens.refresh tokens.refresh_payload.expires_at
    reply (record {
      access_token = tokens.access;
      access_token_expires_at = tokens.access_payload.expires_at;
      session_id = session.id;
      user = new_user_response user;
    })

  unfoldable pub login_user : Reply LoginUserRequest → Action Exchange LoginUserResponse
  unfolding login_lookup_error start_session
  login_user bound = do
    req ← given bound
    user ← on_db (find_login req.username)
    reject_if (not (server.check req.password user.hashed_password)) invalid_credentials
    reject_if (not user.is_email_verified) email_verification_required
    start_session user

  abbrev pub replacement_of : Result TokenPair → Result SessionReplacement
  replacement_of (err e) = err e
  replacement_of (ok tokens) = ok (record {
    id = tokens.refresh_payload.id;
    refresh_token_hash = server.digest tokens.refresh;
    expires_at = tokens.refresh_payload.expires_at;
  })

  abbrev pub rotation_params : String → Payload → Result TokenPair → RotateSessionTxParams
  rotation_params raw payload issued = record {
    id = payload.id;
    username = payload.username;
    refresh_token_hash = server.digest raw;
    now = request.now;
    new_session = replacement_of issued;
  }

  abbrev pub reissued : Payload → Result TokenPair
  reissued payload =
      issue_token_pair_with_refresh_id server request payload.id payload.username payload.role

  -- The cookie of a user whose address is not verified is cleared.
  abbrev pub require_verified : User → Action Exchange (Unit {0})
  require_verified user = elim (user.is_email_verified) [
    | true ↦ reply tt
    | false ↦
        clear_refresh_cookie server.session_cookie_secure
        >> given (fails email_verification_required)
  ]

  abbrev pub verify_refresh : String → Verified
  verify_refresh raw = verify_token server.jwt server.token_maker raw refresh request.now

  -- `renewToken` with a cookie. The callback that issues the tokens is called by the transaction,
  -- which succeeds only if it does.
  unfoldable pub renew_with : String → Action Exchange RenewTokenResponse
  renew_with raw = do
    payload ← given (of_verified (verify_refresh raw))
    user ← on_db (classified_call (read (get_user payload.username)))
    require_verified user
    _ ← on_db (classified_call (rotate_session_tx (rotation_params raw payload (reissued payload))))
    tokens ← given (of_result (reissued payload))
    set_refresh_cookie server.session_cookie_secure tokens.refresh tokens.refresh_payload.expires_at
    reply (record {
      access_token = tokens.access;
      access_token_expires_at = tokens.access_payload.expires_at;
      user = new_user_response user;
    })

  unfoldable pub renew_token : CookieRead → Action Exchange Renewed
  unfolding renew_with
  renew_token no_cookie = reply no_content
  renew_token bad_cookie = given (fails (new_api_error 401 "invalid_session" "invalid session"))
  renew_token (cookie_value raw) = do response ← renew_with raw; reply (renewed response)

  -- The session's row is blocked. One that is missing is answered as one that is there.
  abbrev pub end_session : Result Session → Action Exchange (Unit {0})
  end_session (ok _) = clear_refresh_cookie server.session_cookie_secure
  end_session (err e) =
      if is_record_not_found (classify_error e)
      then clear_refresh_cookie server.session_cookie_secure
      else clear_refresh_cookie server.session_cookie_secure
        >> given (fails (store (classify_error e)))

  abbrev pub logout_verified : Verified → Action Exchange (Unit {0})
  logout_verified (refuses _) e = clear_refresh_cookie server.session_cookie_secure e
  logout_verified (valid payload) e =
      let (r, db') = exec_tx (block_session payload.id) e.db in
      end_session r (record e { db = db' })

  unfoldable pub logout_user : CookieRead → Action Exchange (Unit {0})
  logout_user (cookie_value raw) = logout_verified (verify_refresh raw)
  logout_user _ = clear_refresh_cookie server.session_cookie_secure
