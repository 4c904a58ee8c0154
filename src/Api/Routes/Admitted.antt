-- ===== src/Api/Routes/Admitted.antt =====
-- internal/api/routes.go: which requests reach a handler.
use simplebank.Api.Routes.Passed.{
  limit_fact, origin_fact, kind_passed, access_passed, HasAccess, limits_passwords, guards_origin,
  authenticates,
}
use simplebank.Api.Handler.{Reply, done, fails}
use simplebank.Api.Origin.{trusted_forwarding_headers, same_origin}
use simplebank.Api.Routes.{
  after_limit, run_route, is_for, trimmed, max_body, serve_request, reach, Endpoint, get_livez,
  get_readyz, post_user, post_login, post_logout, post_renew, post_resend, get_verify,
  get_transfer_limits, get_opening_limits, credential_limiter, Route, routes, Incoming, Setting,
  endpoint_client, run_guards,
}
use simplebank.Prelude.{
  ◌≡◌, refl, subst, arith, ◌⊎◌, inl, inr, Bool-cases, Bool, true, false, not, ◌&&◌, ◌||◌, Option,
  none, some, List, [], ◌∷◌, exists, find?,
}
use simplebank.Token.{Payload}

-- What asks for no token, what reads or renews the cookie, and what tries a password.
abbrev pub is_public : Endpoint → Bool
is_public get_livez = true
is_public get_readyz = true
is_public post_user = true
is_public post_login = true
is_public post_logout = true
is_public post_renew = true
is_public post_resend = true
is_public get_verify = true
is_public get_transfer_limits = true
is_public get_opening_limits = true
is_public _ = false

abbrev pub uses_cookie : Endpoint → Bool
uses_cookie post_logout = true
uses_cookie post_renew = true
uses_cookie _ = false

abbrev pub takes_password : Endpoint → Bool
takes_password post_user = true
takes_password post_login = true
takes_password _ = false

abbrev is_covered : Route → Bool
is_covered r =
    (is_public r.endpoint || exists authenticates r.guards)
    && (not (uses_cookie r.endpoint) || exists guards_origin r.guards)
    && (not (takes_password r.endpoint) || exists limits_passwords r.guards)

abbrev are_covered : List Route → Bool
are_covered [] = true
are_covered (r ∷ rs) = is_covered r && are_covered rs

routes_covered : are_covered routes ≡ true
unfolding routes
routes_covered = refl

both : (a b : Bool) → (a && b) ≡ true → (a ≡ true) × (b ≡ true)
both a b h = (ground (arith, h), ground (arith, h))

either : (a b : Bool) → (a || b) ≡ true → (a ≡ true) ⊎ (b ≡ true)
either true b h = inl refl
either false b h = inr h

asked : (a b : Bool) → (not a || b) ≡ true → (a ≡ false) ⊎ (b ≡ true)
asked false b h = inl refl
asked true b h = inr h

found_covered :
    (p : Route → Bool) (rs : List Route) (r : Route)
    → are_covered rs ≡ true
    → find? p rs ≡ some r
    → is_covered r ≡ true
found_covered p [] r c h = absurd (cc h)
found_covered p (x ∷ xs) r c h = elim (Bool-cases (p x)) [
  | inl fits ↦
      let same : x ≡ r = cc (rw fits at h) in
      subst (λ (y : Route). is_covered y ≡ true) same (both (is_covered x) (are_covered xs) c).0
  | inr skip ↦ found_covered p xs r (both (is_covered x) (are_covered xs) c).1 (rw skip at h)
]

-- What is known of a request that reached a handler.
pub record Admission (s : Setting) (r : Incoming) (e : Endpoint) (payload : Option Payload)
    : Type 0 where
  pub token : (is_public e ≡ true) ⊎ HasAccess s r payload
  pub origin :
      (uses_cookie e ≡ false)
      ⊎ (same_origin s.net s.public_base_url
            (trusted_forwarding_headers s.net s.trusted_proxies r.http)
          ≡ done tt)
  pub limit : (takes_password e ≡ false) ⊎ (s.admits credential_limiter (endpoint_client r) ≡ true)

reached :
    (route : Route) (x : Reply (Option Payload)) (e : Endpoint) (payload : Option Payload)
    → reach route.endpoint x ≡ done (e, payload)
    → (route.endpoint ≡ e) × (x ≡ done payload)
reached route (done p) e payload h = (cc h, cc h)
reached route (fails f) e payload h = absurd (cc h)

unlimited :
    (limited : Reply (Unit {0})) (reply : Reply (Endpoint × Option Payload))
    {x : Endpoint × Option Payload}
    → after_limit limited reply ≡ done x
    → reply ≡ done x
unlimited (done _) reply h = h
unlimited (fails f) reply h = absurd (cc h)

module _ (s : Setting) (r : Incoming) where
  route_admits :
      (route : Route) (payload : Option Payload)
      → is_covered route ≡ true
      → run_guards s (trimmed s r) route.guards none ≡ done payload
      → Admission s r route.endpoint payload
  route_admits route payload c h =
      let (first_two, password) = both _ _ c in
      let (public, cookie) = both _ _ first_two in
      record {
        token = elim (either (is_public route.endpoint) _ public) [
          | inl free ↦ inl free
          | inr guarded ↦
              let a = access_passed s (trimmed s r) route.guards none payload h (inr guarded) in
              inr (record {
                claims = a.claims;
                raw = a.raw;
                in_context = a.in_context;
                carried = a.carried;
                verified = a.verified;
              })
        ];
        origin = elim (asked (uses_cookie route.endpoint) _ cookie) [
          | inl unused ↦ inl unused
          | inr guarded ↦ inr (
              kind_passed s (trimmed s r) guards_origin _ (origin_fact s (trimmed s r)) route.guards
                none payload guarded h)
        ];
        limit = elim (asked (takes_password route.endpoint) _ password) [
          | inl unused ↦ inl unused
          | inr guarded ↦ inr (
              kind_passed s (trimmed s r) limits_passwords _ (limit_fact s (trimmed s r))
                route.guards none payload guarded h)
        ];
      }

  found_admits :
      (found : Option Route) (e : Endpoint) (payload : Option Payload)
      → find? (is_for s r) routes ≡ found
      → run_route s (trimmed s r) found ≡ done (e, payload)
      → Admission s r e payload
  found_admits none e payload f h = absurd (cc h)
  found_admits (some route) e payload f h =
      let (same, passed) = reached route _ e payload h in
      subst (λ (e : Endpoint). Admission s r e payload) same
        (route_admits route payload (found_covered (is_for s r) routes route routes_covered f)
          passed)

  -- Whatever a request is, and whatever the limit of bodies answers to it, it reaches a handler only
  -- with an access token that the parser of tokens found valid, whose claims are then the ones in
  -- the context, unless the handler is one of the ten that are public; only if the origin of the
  -- request, after its untrusted forwarding headers are gone, is let through, where the handler
  -- uses the refresh cookie; and only if the limiter for credentials admits the client, where the
  -- handler takes a password.
  pub reached_handler-Admission :
      (e : Endpoint) (payload : Option Payload)
      → serve_request s r ≡ done (e, payload)
      → Admission s r e payload
  unfolding serve_request
  reached_handler-Admission e payload h =
      found_admits (find? (is_for s r) routes) e payload refl
        (unlimited (s.body_limit max_body r.content_length) _ h)
