-- ===== src/Api/Routes/TokenTypes.antt =====
-- internal/api/routes.go: what a token of another type opens.
use simplebank.Errors.{ok}
use simplebank.Api.Routes.Admitted.{is_public, reached_handler-Admission}
use simplebank.Api.Handler.{done}
use simplebank.Api.Routes.{serve_request, Endpoint, Incoming, Setting}
use simplebank.Prelude.{
  ◌∙◌, sym, ap, str_eq, ltb, ◌≡◌, refl, arith, inl, inr, Bool-cases, String, true, false, Option,
  some,
}
use simplebank.Token.{
  decoded, err_invalid_token, validate, JwtLaws, Payload, parsed, access, new_expected_payload,
}

type_refused :
    (p : Payload)
    → str_eq p.token_type access ≡ false
    → validate (decoded (new_expected_payload access) p) ≡ some err_invalid_token
unfolding validate
type_refused p h = rw h refl

module _ (s : Setting) (r : Incoming) where
  not_parsed :
      (p : Payload) (t : String) (claims : Payload)
      → JwtLaws s.jwt
      → s.jwt.signed_string s.jwt_secret p ≡ ok t
      → str_eq p.token_type access ≡ false
      → s.jwt.parse_with_claims s.jwt_secret t (new_expected_payload access) s.now
        ≡ parsed claims true
      → ⊥
  not_parsed p t claims laws signed other read = elim (Bool-cases (ltb s.now p.expires_at)) [
    | inl early ↦
        let refused =
          laws.validates s.jwt_secret p (new_expected_payload access) s.now t err_invalid_token
            signed (ground (arith, early)) (type_refused p other) in
        cc (refused, read)
    | inr late ↦
        let refused =
          laws.expires s.jwt_secret p (new_expected_payload access) s.now t signed
            (ground (arith, late)) in
        cc (refused, read)
  ]

  -- A token that was signed as a refresh token, or as any but an access token, opens none of the
  -- handlers that are not public: a request that carries it reaches none of them.
  pub refresh_token_opens_nothing :
      (p : Payload) (t : String)
      → JwtLaws s.jwt
      → s.jwt.signed_string s.jwt_secret p ≡ ok t
      → str_eq p.token_type access ≡ false
      → r.bearer ≡ some t
      → (e : Endpoint) (payload : Option Payload) → is_public e ≡ false
      → ¬ (serve_request s r ≡ done (e, payload))
  refresh_token_opens_nothing p t laws signed other carries e payload guarded h =
      elim (reached_handler-Admission s r e payload h).token [
        | inl free ↦ cc (free, guarded)
        | inr a ↦
            let same : a.raw ≡ t = cc (a.carried, carries) in
            not_parsed p t a.claims laws signed other (
              ap
                (λ (raw : String).
                  s.jwt.parse_with_claims s.jwt_secret raw (new_expected_payload access) s.now)
                (sym same)
              ∙ a.verified)
      ]
