-- ===== src/Tests/Routes.antt =====
-- internal/api/routes.go: a request with an access token, and one with a refresh token.
use simplebank.Api.Errors.{echo}
use simplebank.Api.Handler.{fails, Reply, done}
use simplebank.Api.Origin.{same_origin, trusted_forwarding_headers}
use simplebank.Api.Routes.{Incoming, Setting, get_accounts, serve_request, run_guards, routes}
use simplebank.Api.Routes.TokenTypes.{refresh_token_opens_nothing}
use simplebank.Api.Routes.Admitted.{Admission, reached_handler-Admission}
use simplebank.Prelude.{none, ltb, if◌then◌else◌, Option, ℕ, [], ◌≡◌, refl, some, true, str_eq}
use simplebank.Tests.Server.{net, browser}
use simplebank.Tests.Tokens.{jwt, laws, maker, access_claims, refresh_claims}
use simplebank.Token.{validate}

-- A declared length that is larger than the limit is refused.
abbrev within : ℕ → Option ℕ → Reply (Unit {0})
within limit none = done tt
within limit (some n) = if ltb limit n then fails (echo 413) else done tt

abbrev setting : Setting
setting = record {
  net = net;
  jwt = jwt;
  jwt_secret = maker.secret_key;
  public_base_url = "";
  trusted_proxies = [];
  now = 950;
  fits = λ pattern path. str_eq pattern path;
  admits = λ limiter client. true;
  not_found = echo 404;
  body_limit = λ limit declared. within limit declared;
  jwt_missing = echo 401;
  jwt_invalid = echo 401;
}

abbrev with_access : Incoming
with_access = record {
  method = "GET";
  path = "/api/v1/accounts";
  http = browser;
  bearer = some "a1";
  content_length = some 0;
  real_ip = "::1";
}

accounts_reached :
    serve_request setting with_access
    ≡ done (get_accounts, some (record (access_claims 901 "a1") { expected_type = "access" }))
unfolding serve_request run_guards routes trusted_forwarding_headers same_origin validate
accounts_reached = refl

reached_handler-Admission_example :
    Admission setting with_access get_accounts
      (some (record (access_claims 901 "a1") { expected_type = "access" }))
reached_handler-Admission_example =
    reached_handler-Admission setting with_access get_accounts _ accounts_reached

abbrev with_refresh : Incoming
with_refresh = record with_access { bearer = some "r1" }

refresh_token_opens_nothing_example :
    ¬ (serve_request setting with_refresh ≡ done (get_accounts, some (refresh_claims 900 "r1")))
refresh_token_opens_nothing_example =
    refresh_token_opens_nothing setting with_refresh (refresh_claims 900 "r1") "r1" laws refl refl
      refl get_accounts (some (refresh_claims 900 "r1")) refl
