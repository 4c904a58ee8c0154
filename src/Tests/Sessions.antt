-- ===== src/Tests/Sessions.antt =====
-- internal/api/user.go: a login of the small bank, renewed and logged out.
use simplebank.Api.Cookie.{Exchange, refresh_cookie, cleared_cookie, cookie_value}
use simplebank.Api.Errors.{store}
use simplebank.Api.Handler.{done, fails, ◌>>=◌}
use simplebank.Api.Login.{
  LoginUserRequest, LoginUserResponse, RenewTokenResponse, login_user, renew_token, renewed,
  logout_user, invalid_credentials, new_user_response, verify_refresh, login_lookup_error,
  start_session,
}
use simplebank.Api.Tokens.{
  Server, Request, issue_token_pair, issue_token_pair_with_refresh_id, TokenPair,
}
use simplebank.Api.Login.Hides.{login_hides_users}
use simplebank.Api.Login.Opens.{opened}
use simplebank.Api.Login.RoundTrip.{login_then_renew, AnsweredFor}
use simplebank.Api.Login.Logout.{logout_ends_session}
use simplebank.Errors.{invalid_session}
use simplebank.Prelude.{[], ◌≡◌, ◌∷◌, refl, some, none, true, str_eq, arith}
use simplebank.Sqlc.Models.{User}
use simplebank.Sqlc.Sessions.{create_session}
use simplebank.Sqlc.Users.{get_user, verified}
use simplebank.Store.Exec.{exec_tx}
use simplebank.Tests.{bank, pg, user}
use simplebank.Tests.Tokens.{jwt, laws, maker, draw, access_claims, refresh_claims}
use simplebank.Token.{
  valid, validate, Payload, create_token, new_payload, new_payload_with_id, sign_payload,
  verify_token, refresh,
}

abbrev server : Server
server = record {
  jwt = jwt;
  token_maker = maker;
  access_ttl = 100;
  refresh_ttl = 5_000;
  session_cookie_secure = true;
  digest = λ x. x;
  check = str_eq;
}

abbrev first : Request
first = record {
  pg = pg 900;
  access_draw = draw 901 "a1";
  refresh_draw = draw 900 "r1";
  now = 900;
  user_agent = "agent";
  real_ip = "::1";
}

abbrev later : Request
later = record {
  pg = pg 1_000;
  access_draw = draw 1_001 "a2";
  refresh_draw = draw 1_000 "r2";
  now = 1_000;
  user_agent = "agent";
  real_ip = "::1";
}

abbrev alice : User
alice = verified (user 1 "alice")

abbrev open_bank : Exchange
open_bank = record { db = record bank { users = alice ∷ bank.users }; cookie = none }

abbrev good : LoginUserRequest
good = record { username = "alice"; password = "hash" }

abbrev wrong : LoginUserRequest
wrong = record { username = "alice"; password = "guess" }

login_hides_users_example :
    (login_user server first
        (done wrong)
        (record { db = record bank { users = [] }; cookie = none })
      ≡ (fails invalid_credentials, record { db = record bank { users = [] }; cookie = none }))
    × (login_user server first (done wrong) open_bank ≡ (fails invalid_credentials, open_bank))
login_hides_users_example =
    login_hides_users server first wrong (record { db = record bank { users = [] }; cookie = none })
      open_bank alice refl refl refl

abbrev tokens : TokenPair
tokens = record {
  access = "a1";
  access_payload = access_claims 901 "a1";
  refresh = "r1";
  refresh_payload = refresh_claims 900 "r1";
}

abbrev welcome : LoginUserResponse
welcome = record {
  access_token = "a1";
  access_token_expires_at = 1_001;
  session_id = 900;
  user = new_user_response alice;
}

abbrev logged_in : Exchange
logged_in = opened server first tokens alice open_bank

login_answers : login_user server first (done good) open_bank ≡ (done welcome, logged_in)
unfolding login_user start_session login_lookup_error issue_token_pair
    issue_token_pair_with_refresh_id ◌>>=◌ get_user create_token new_payload new_payload_with_id
    sign_payload create_session exec_tx
login_answers = refl

login_then_renew_example :
    (r : RenewTokenResponse) × (e : Exchange) × (renew_token server later
        (cookie_value "r1")
        logged_in
      ≡ (done (renewed r), e))
    × AnsweredFor server welcome r e
unfolding new_payload new_payload_with_id
login_then_renew_example =
    login_then_renew server laws first later good open_bank (refresh_cookie true "r1" 5_900)
      login_answers refl refl (omega arith)
      (record {
        access_token = "a2";
        refresh_token = "r2";
        access_signed = refl;
        refresh_signed = refl;
      })

abbrev claims : Payload
claims = record (refresh_claims 900 "r1") { expected_type = refresh }

verifies_now : verify_refresh server first "r1" ≡ valid claims
unfolding verify_token validate
verifies_now = refl

verifies_later : verify_refresh server later "r1" ≡ valid claims
unfolding verify_token validate
verifies_later = refl

logout_ends_session_example :
    (e : Exchange) × (logout_user server first (cookie_value "r1") logged_in ≡ (done tt, e))
    × (e.cookie ≡ some (cleared_cookie true))
    × (renew_token server later (cookie_value "r1") e ≡ (fails (store invalid_session), e))
logout_ends_session_example =
    logout_ends_session server first later "r1" claims alice logged_in verifies_now verifies_later
      refl refl
