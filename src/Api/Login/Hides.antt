-- ===== src/Api/Login/Hides.antt =====
-- internal/api/user.go: the refusals of `loginUser`.
use simplebank.Api.Cookie.{Exchange, on_db}
use simplebank.Api.Handler.{done, fails, reject_if}
use simplebank.Api.Login.{
  LoginUserRequest, find_login, login_lookup_error, login_user, invalid_credentials,
}
use simplebank.Api.Tokens.{Server, Request}
use simplebank.Api.Steps.{given-done, on_db-eq, >>=-done, >>=-fails}
use simplebank.Errors.{classify_error}
use simplebank.Prelude.{◌≡◌, ◌∙◌, String, none, some, false, find?}
use simplebank.Sqlc.Accounts.{username_is}
use simplebank.Sqlc.Models.{Db, User}
use simplebank.Sqlc.Users.{get_user}

pub unknown_login :
    (username : String) (db : Db)
    → find? (username_is username) db.users ≡ none
    → find_login username db ≡ (fails invalid_credentials, db)
unfolding login_lookup_error get_user classify_error
unknown_login username db h = rw h

pub known_login :
    (username : String) (db : Db) (u : User)
    → find? (username_is username) db.users ≡ some u
    → find_login username db ≡ (done u, db)
unfolding get_user
known_login username db u h = rw h

module _ (server : Server) (request : Request) (req : LoginUserRequest) (e : Exchange) where
  unknown_refused :
      find? (username_is req.username) e.db.users ≡ none
      → login_user server request (done req) e ≡ (fails invalid_credentials, e)
  unfolding login_user
  unknown_refused h =
      given-done req _ e
      ∙ >>=-fails (on_db (find_login req.username)) _
          (on_db-eq (find_login req.username) e (unknown_login req.username e.db h))

  mistaken_refused :
      (u : User)
      → find? (username_is req.username) e.db.users ≡ some u
      → server.check req.password u.hashed_password ≡ false
      → login_user server request (done req) e ≡ (fails invalid_credentials, e)
  unfolding login_user
  mistaken_refused u h wrong =
      given-done req _ e
      ∙ >>=-done (on_db (find_login req.username)) _
          (on_db-eq (find_login req.username) e (known_login req.username e.db u h))
      ∙ >>=-fails (reject_if _ invalid_credentials) _ (rw wrong)

-- A login does not tell an unknown username from a wrong password: where no user has the name,
-- and where one has it and the password does not fit, the reply is the same invalid credentials,
-- no cookie is set and the tables stay as they were.
pub login_hides_users :
    (server : Server) (request : Request) (req : LoginUserRequest) (unknown known : Exchange)
    (u : User)
    → find? (username_is req.username) unknown.db.users ≡ none
    → find? (username_is req.username) known.db.users ≡ some u
    → server.check req.password u.hashed_password ≡ false
    → (login_user server request (done req) unknown ≡ (fails invalid_credentials, unknown))
      × (login_user server request (done req) known ≡ (fails invalid_credentials, known))
login_hides_users server request req unknown known u absent found wrong = (
  unknown_refused server request req unknown absent,
  mistaken_refused server request req known u found wrong,
)
