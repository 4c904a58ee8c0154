-- ===== src/Api/Tokens.antt =====
-- internal/api/user.go: `issueTokenPair`, and what its handlers use of the server and a request.
use simplebank.Errors.{Result, ok, err}
use simplebank.Prelude.{ℕ, ◌==◌, String, Bool, if◌then◌else◌}
use simplebank.Sqlc.Models.{Pg}
use simplebank.Token.{
  Jwt, JwtMaker, Draw, Payload, access, refresh, create_token, create_token_with_id,
}

pub record TokenPair : Type 0 where
  pub access : String
  pub access_payload : Payload
  pub refresh : String
  pub refresh_payload : Payload

-- What the handlers use of the server: its token maker, its configuration, and the functions of
-- the packages secret and password.
pub record Server : Type 0 where
  pub jwt : Jwt
  pub token_maker : JwtMaker
  pub access_ttl : ℕ
  pub refresh_ttl : ℕ
  pub session_cookie_secure : Bool
  pub digest : String → String
  pub check : String → String → Bool

-- What the server and the database draw for one request, and the client's user agent and address.
pub record Request : Type 0 where
  pub pg : Pg
  pub access_draw : Draw
  pub refresh_draw : Draw
  pub now : ℕ
  pub user_agent : String
  pub real_ip : String

abbrev pub role_depositor : String
role_depositor = "depositor"

-- Both tokens, or the first error.
abbrev pub pair_of : Result (String × Payload) → Result (String × Payload) → Result TokenPair
pair_of (err e) _ = err e
pair_of (ok _) (err e) = err e
pair_of (ok (a, p)) (ok (r, q)) =
    ok (record { access = a; access_payload = p; refresh = r; refresh_payload = q })

module _ (server : Server) (request : Request) where
  -- The second token of a pair: under a new id where the given one is `uuid.Nil()`.
  abbrev pub issue_refresh : ℕ → String → String → Result (String × Payload)
  issue_refresh refresh_id username role =
      if refresh_id == 0
      then create_token server.jwt server.token_maker request.refresh_draw username role refresh
          server.refresh_ttl
      else create_token_with_id server.jwt server.token_maker request.refresh_draw refresh_id
          username role refresh server.refresh_ttl

  unfoldable pub issue_token_pair_with_refresh_id : ℕ → String → String → Result TokenPair
  issue_token_pair_with_refresh_id refresh_id username role =
      pair_of
        (create_token server.jwt server.token_maker request.access_draw username role access
          server.access_ttl)
        (issue_refresh refresh_id username role)

  unfoldable pub issue_token_pair : String → String → Result TokenPair
  unfolding issue_token_pair_with_refresh_id
  issue_token_pair username role = issue_token_pair_with_refresh_id 0 username role
