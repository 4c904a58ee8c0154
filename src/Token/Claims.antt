-- ===== src/Token/Claims.antt =====
-- internal/token/jwt_maker.go: a token that was made, and its verification.
use simplebank.Prelude.{
  eq_iff, ◌<◌, sym, leb, Bool-cases, if◌then◌else◌, ◌≡◌, ◌⊎◌, ℕ, String, none, some, str_eq, arith,
  ap, ◌∙◌, inl, inr,
}
use simplebank.Errors.{ok}
use simplebank.Token.{
  Verified, err_expired_token, err_invalid_token, access, refresh, Payload, validate, Draw, Jwt,
  JwtLaws, JwtMaker, new_payload, new_payload_with_id, sign_payload, create_token, verify_token,
  valid, refuses, new_expected_payload, of_parse,
}

-- A payload that was signed, under the type it is of.
pub signed_of :
    (jwt : Jwt) (maker : JwtMaker) (p : Payload) {t : String} {q : Payload}
    → sign_payload jwt maker p ≡ ok (t, q)
    → (jwt.signed_string maker.secret_key p ≡ ok t) × (q ≡ p)
unfolding sign_payload
signed_of jwt maker p h = ground arith

-- The two types of tokens.
abbrev pub IsType : String → Type 0
IsType s = (s ≡ access) ⊎ (s ≡ refresh)

-- The verdict of the specification: time first, then the type.
abbrev pub verdict : Payload → String → ℕ → Verified
verdict p expected now =
    if leb p.expires_at now
    then refuses err_expired_token
    else if str_eq p.token_type expected
    then valid (record p { expected_type = expected })
    else refuses err_invalid_token

pub verdict-early :
    (p : Payload) (expected : String) (now : ℕ)
    → now < p.expires_at
    → p.token_type ≡ expected
    → verdict p expected now ≡ valid (record p { expected_type = expected })
verdict-early p expected now early same = ground (arith, (eq_iff p.token_type expected).1 same)

-- Claims of a type of ours are valid exactly where that type is expected.
validate-matches :
    (p : Payload) (expected : String)
    → IsType p.token_type
    → IsType expected
    → validate (record p { expected_type = expected })
      ≡ (if str_eq p.token_type expected then none else some err_invalid_token)
unfolding validate
validate-matches p expected (inl a) (inl b) = rw (a, b)
validate-matches p expected (inl a) (inr b) = rw (a, b)
validate-matches p expected (inr a) (inl b) = rw (a, b)
validate-matches p expected (inr a) (inr b) = rw (a, b)

module _ (jwt : Jwt) (laws : JwtLaws jwt) (maker : JwtMaker) (p : Payload) (now : ℕ) {t : String}
    (signed : jwt.signed_string maker.secret_key p ≡ ok t) (known : IsType p.token_type) where
  -- What was signed gets the verdict.
  pub signed-verdict :
      (expected : String)
      → IsType expected
      → verify_token jwt maker t expected now ≡ verdict p expected now
  unfolding verify_token
  signed-verdict expected e = elim (Bool-cases (leb p.expires_at now)) [
    | inl late ↦
        ap of_parse (
          laws.expires maker.secret_key p (new_expected_payload expected) now t signed
            (ground arith))
        ∙ rw late
    | inr early ↦ elim (Bool-cases (str_eq p.token_type expected)) [
      | inl same ↦
          ap of_parse (
            laws.parses maker.secret_key p (new_expected_payload expected) now t signed
              (ground arith) (validate-matches p expected known e ∙ rw same))
          ∙ rw (early, same)
      | inr other ↦
          ap of_parse (
            laws.validates maker.secret_key p (new_expected_payload expected) now t
              err_invalid_token signed (ground arith)
              (validate-matches p expected known e ∙ rw other))
          ∙ rw (early, other)
    ]
  ]

-- A token that the maker made gets this verdict for every type that can be expected of it, at any
-- time: once its expiry has come it is refused as expired, before that it is answered with the
-- claims that were signed if its own type is expected, and is refused as invalid if the other
-- type is.
pub create_token-verdict :
    (jwt : Jwt) (laws : JwtLaws jwt) (maker : JwtMaker) (draw : Draw) (username role type : String)
    (duration : ℕ) {t : String} {p : Payload}
    → create_token jwt maker draw username role type duration ≡ ok (t, p)
    → IsType type
    → (expected : String) (now : ℕ) → IsType expected
    → verify_token jwt maker t expected now ≡ verdict p expected now
unfolding create_token new_payload new_payload_with_id
create_token-verdict jwt laws maker draw username role type duration {t} {p} h known expected now
      e =
    let (signed, same) = signed_of jwt maker _ h in
    signed-verdict jwt laws maker _ now signed known expected e
    ∙ ap (λ q. verdict q expected now) (sym same)
