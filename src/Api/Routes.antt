-- ===== src/Api/Routes.antt =====
-- internal/api/routes.go: the table of routes with their middleware, and how a request runs through
-- it; internal/api/server.go: the middleware of `NewServer` that comes before.
pub mod Passed
pub mod Admitted
pub mod TokenTypes
use Prim.Native.String.{len, ◌++◌ as str_append}
use simplebank.Api.Errors.{Failure, new_api_error, echo}
use simplebank.Api.Handler.{Reply, done, fails}
use simplebank.Api.Origin.{Net, HttpRequest, same_origin, trusted_forwarding_headers}
use simplebank.Errors.{Result, ok, err, Error, ◌>>=◌}
use simplebank.Prelude.{
  ℕ, ltb, String, Bool, true, false, ◌&&◌, Option, none, some, List, [], ◌∷◌, str_eq, find?,
  if◌then◌else◌,
}
use simplebank.Token.{
  Jwt, Payload, Parse, parsed, other_claims, parse_error, new_expected_payload, access,
}

-- A handler, by its method and what its path says.
pub data Endpoint : Type 0 where
  get_livez get_readyz : Endpoint
  post_user post_login post_logout post_renew post_resend get_verify : Endpoint
  get_transfer_limits get_opening_limits : Endpoint
  post_account get_account_by_id get_accounts get_account_transfers post_transfer : Endpoint
  get_stream get_notifications put_read put_all_read : Endpoint

-- Middleware of a route. The credential limiter has another rate than the other one.
pub data Guard : Type 0 where
  no_store credential_limiter auth_limiter checks_origin authenticated : Guard

pub record Route : Type 0 where
  pub method : String
  pub path : String
  pub endpoint : Endpoint
  pub guards : List Guard

abbrev v1 : String → String → Endpoint → List Guard → Route
v1 method path endpoint guards = record {
  method = method;
  path = str_append "/api/v1" path;
  endpoint = endpoint;
  guards = no_store ∷ guards;
}

abbrev auth : String → String → Endpoint → Route
auth method path endpoint = v1 method path endpoint (authenticated ∷ [])

abbrev unguarded : String → Endpoint → Route
unguarded path endpoint = record { method = "GET"; path = path; endpoint = endpoint; guards = [] }

unfoldable pub routes : List Route
routes =
    unguarded "/livez" get_livez
    ∷ unguarded "/readyz" get_readyz
    ∷ v1 "POST" "/users" post_user (credential_limiter ∷ [])
    ∷ v1 "POST" "/users/login" post_login (credential_limiter ∷ [])
    ∷ v1 "POST" "/users/logout" post_logout (checks_origin ∷ auth_limiter ∷ [])
    ∷ v1 "POST" "/tokens/renew" post_renew (checks_origin ∷ auth_limiter ∷ [])
    ∷ v1 "POST" "/users/verify_email/resend" post_resend (auth_limiter ∷ [])
    ∷ v1 "GET" "/users/verify_email" get_verify (auth_limiter ∷ [])
    ∷ v1 "GET" "/transfer-limits" get_transfer_limits []
    ∷ v1 "GET" "/account-opening-limits" get_opening_limits []
    ∷ auth "POST" "/accounts" post_account
    ∷ auth "GET" "/accounts/:id" get_account_by_id
    ∷ auth "GET" "/accounts" get_accounts
    ∷ auth "GET" "/accounts/:id/transfers" get_account_transfers
    ∷ auth "POST" "/transfers" post_transfer
    ∷ auth "GET" "/notifications/stream" get_stream
    ∷ auth "GET" "/notifications" get_notifications
    ∷ auth "PUT" "/notifications/:id/read" put_read
    ∷ auth "PUT" "/notifications/read-all" put_all_read
    ∷ []

-- A request: what the origin check reads, the token of its authorization header, the length that
-- it declares for its body, if it does, and the address that the extractor finds.
pub record Incoming : Type 0 where
  pub method : String
  pub path : String
  pub http : HttpRequest
  pub bearer : Option String
  pub content_length : Option ℕ
  pub real_ip : String

-- A network of trusted proxies is given as a CIDR.
pub data Extractor (Network : Type 0) : Type 0 where
  direct : Extractor Network
  from_xff : List Network → Extractor Network

abbrev pub parse_all :
    {Network : Type 0} → (String → Result Network) → List String → Result (List Network)
parse_all parse_cidr [] = ok []
parse_all parse_cidr (cidr ∷ cidrs) = do
  network ← parse_cidr cidr
  networks ← parse_all parse_cidr cidrs
  ok (network ∷ networks)

unfoldable pub client_ip_extractor :
    {Network : Type 0} → (String → Result Network) → List String → Result (Extractor Network)
client_ip_extractor parse_cidr [] = ok direct
client_ip_extractor parse_cidr (cidr ∷ cidrs) = do
  networks ← parse_all parse_cidr (cidr ∷ cidrs)
  ok (from_xff networks)

-- What the server has: its configuration, whether a path fits the pattern of a route, what its
-- limiters answer for a client, and what other packages answer: what the limit of bodies says to a
-- declared length before the body is read, and the failures without a route and for a token that
-- is missing or that is refused. What a handler reads of a longer body is not modelled here.
pub record Setting : Type 0 where
  pub net : Net
  pub jwt : Jwt
  pub jwt_secret : String
  pub public_base_url : String
  pub trusted_proxies : List String
  pub now : ℕ
  pub fits : String → String → Bool
  pub admits : Guard → String → Bool
  pub not_found : Failure
  pub body_limit : ℕ → Option ℕ → Reply (Unit {0})
  pub jwt_missing : Failure
  pub jwt_invalid : Failure

abbrev pub rate_limited : Failure
rate_limited = new_api_error 429 "rate_limited" "rate limit exceeded"

-- `endpointClient`
abbrev pub endpoint_client : Incoming → String
endpoint_client r =
    str_append r.method (str_append " " (str_append r.path (str_append "\0" r.real_ip)))

abbrev pub limit : Bool → Option Payload → Reply (Option Payload)
limit true payload = done payload
limit false payload = fails rate_limited

abbrev pub after_origin : Reply (Unit {0}) → Option Payload → Reply (Option Payload)
after_origin (done _) payload = done payload
after_origin (fails e) payload = fails e

abbrev pub of_token : Setting → Parse → Reply (Option Payload)
of_token s (parsed p true) = done (some p)
of_token s _ = fails s.jwt_invalid

-- The middleware of echo-jwt, with the claims of `authMiddleware`.
abbrev pub authenticate : Setting → Option String → Reply (Option Payload)
authenticate s none = fails s.jwt_missing
authenticate s (some raw) =
    of_token s (s.jwt.parse_with_claims s.jwt_secret raw (new_expected_payload access) s.now)

-- One middleware, with the payload that the context has so far.
abbrev pub run_guard : Setting → Incoming → Guard → Option Payload → Reply (Option Payload)
run_guard s r no_store payload = done payload
run_guard s r credential_limiter payload =
    limit (s.admits credential_limiter (endpoint_client r)) payload
run_guard s r auth_limiter payload = limit (s.admits auth_limiter (endpoint_client r)) payload
run_guard s r checks_origin payload =
    after_origin (same_origin s.net s.public_base_url r.http) payload
run_guard s r authenticated payload = authenticate s r.bearer

abbrev pub and_run :
    Reply (Option Payload) → (Option Payload → Reply (Option Payload)) → Reply (Option Payload)
and_run (done payload) rest = rest payload
and_run (fails e) rest = fails e

unfoldable pub run_guards :
    Setting → Incoming → List Guard → Option Payload → Reply (Option Payload)
run_guards s r [] payload = done payload
run_guards s r (g ∷ gs) payload = and_run (run_guard s r g payload) (run_guards s r gs)

abbrev pub reach : Endpoint → Reply (Option Payload) → Reply (Endpoint × Option Payload)
reach e (done payload) = done (e, payload)
reach e (fails f) = fails f

abbrev pub is_for : Setting → Incoming → Route → Bool
is_for s r route = str_eq route.method r.method && s.fits route.path r.path

abbrev pub run_route : Setting → Incoming → Option Route → Reply (Endpoint × Option Payload)
run_route s r none = fails s.not_found
run_route s r (some route) = reach route.endpoint (run_guards s r route.guards none)

-- The forwarding headers of an untrusted client are gone before the middleware of a route runs.
abbrev pub trimmed : Setting → Incoming → Incoming
trimmed s r = record r { http = trusted_forwarding_headers s.net s.trusted_proxies r.http }

-- The argument of `middleware.BodyLimit`.
abbrev pub max_body : ℕ
max_body = 1_048_576

abbrev pub after_limit :
    Reply (Unit {0}) → Reply (Endpoint × Option Payload) → Reply (Endpoint × Option Payload)
after_limit (done _) reply = reply
after_limit (fails e) reply = fails e

-- The handler that a request reaches, with the claims in its context, or the failure.
unfoldable pub serve_request : Setting → Incoming → Reply (Endpoint × Option Payload)
unfolding run_guards routes
serve_request s r =
    after_limit (s.body_limit max_body r.content_length)
      (run_route s (trimmed s r) (find? (is_for s r) routes))
