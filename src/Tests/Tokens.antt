-- ===== src/Tests/Tokens.antt =====
-- A package jwt whose signed tokens stand in a register under their nonces.
use simplebank.Token.Claims.{create_token-verdict}
use simplebank.Prelude.{
  ◌+◌, ◌≡◌, ◌∙◌, ◌<◌, ◌≤◌, ◌&&◌, ◌==◌, ap, sym, ℕ, String, Bool, Option, none, some, true, false,
  str_eq, eq_iff, leb, arith, refl, inl, inr, Bool-cases, if◌then◌else◌,
}
use simplebank.Errors.{Result, ok, err, foreign}
use simplebank.Token.{
  sign_payload, Payload, Jwt, JwtLaws, Parse, parsed, parse_error, validate, decoded, TokenError,
  access, refresh, JwtMaker, Draw, create_token, verify_token, new_payload, new_payload_with_id,
  valid,
}

abbrev same_payload : Payload → Payload → Bool
same_payload p q =
    p.id == q.id
    && str_eq p.username q.username
    && str_eq p.role q.role
    && str_eq p.token_type q.token_type
    && str_eq p.nonce q.nonce
    && p.issued_at == q.issued_at
    && p.expires_at == q.expires_at
    && str_eq p.expected_type q.expected_type

same_payload-eq : (p q : Payload) → same_payload p q ≡ true → p ≡ q
same_payload-eq p q h = ground (
  arith,
  (eq_iff p.username q.username).0,
  (eq_iff p.role q.role).0,
  (eq_iff p.token_type q.token_type).0,
  (eq_iff p.nonce q.nonce).0,
  (eq_iff p.expected_type q.expected_type).0,
)

module _ (register : String → Option Payload) where
  abbrev sign_if : Bool → String → Result String
  sign_if true nonce = ok nonce
  sign_if false nonce = err (foreign "not registered")

  abbrev sign_as : Payload → Option Payload → Result String
  sign_as p none = err (foreign "not registered")
  sign_as p (some q) = sign_if (same_payload p q) p.nonce

  abbrev judge : Payload → Option TokenError → Parse
  judge p none = parsed p true
  judge p (some _) = parse_error false

  abbrev parse_as : Payload → ℕ → Option Payload → Parse
  parse_as claims now none = parse_error false
  parse_as claims now (some p) =
      if leb p.expires_at now
      then parse_error true
      else judge (decoded claims p) (validate (decoded claims p))

  abbrev pub register_jwt : Jwt
  register_jwt = record {
    signed_string = λ key p. sign_as p (register p.nonce);
    parse_with_claims = λ key t claims now. parse_as claims now (register t);
    numeric_date = λ t. t;
  }

  registered :
      (p : Payload) (t : String) → sign_as p (register p.nonce) ≡ ok t → register t ≡ some p
  registered p t h = go (register p.nonce) refl h
    where
      go : (r : Option Payload) → register p.nonce ≡ r → sign_as p r ≡ ok t → register t ≡ some p
      go none e h = absurd (cc h)
      go (some q) e h = elim (Bool-cases (same_payload p q)) [
        | inl same ↦
            let name : p.nonce ≡ t = ground arith in
            ap register (sym name) ∙ e ∙ ap some (sym (same_payload-eq p q same))
        | inr other ↦ absurd (ground arith)
      ]

  parse_as-early :
      (p claims : Payload) (now : ℕ) {v : Option TokenError}
      → now < p.expires_at
      → validate (decoded claims p) ≡ v
      → parse_as claims now (some p) ≡ judge (decoded claims p) v
  parse_as-early p claims now early h = elim (Bool-cases (leb p.expires_at now)) [
    | inl late ↦ absurd (ground arith)
    | inr young ↦ rw (young, h)
  ]

  parse_as-late :
      (p claims : Payload) (now : ℕ)
      → p.expires_at ≤ now
      → parse_as claims now (some p) ≡ parse_error true
  parse_as-late p claims now late = ground arith

  pub register_laws : JwtLaws register_jwt
  register_laws = record {
    parses = λ key p claims now t signed early good.
        ap (parse_as claims now) (registered p t signed) ∙ parse_as-early p claims now early good;
    validates = λ key p claims now t x signed early bad.
        ap (parse_as claims now) (registered p t signed) ∙ parse_as-early p claims now early bad;
    expires = λ key p claims now t signed late.
        ap (parse_as claims now) (registered p t signed) ∙ parse_as-late p claims now late;
  }

abbrev pub draw : ℕ → String → Draw
draw id nonce = record { id = id; nonce = nonce; now = id }

-- Tokens of a user who logged in under the id 900, and renewed.
abbrev pub access_claims : ℕ → String → Payload
access_claims id nonce = record {
  id = id;
  username = "alice";
  role = "depositor";
  token_type = access;
  nonce = nonce;
  issued_at = id;
  expires_at = id + 100;
  expected_type = "";
}

abbrev pub refresh_claims : ℕ → String → Payload
refresh_claims at nonce = record {
  id = 900;
  username = "alice";
  role = "depositor";
  token_type = refresh;
  nonce = nonce;
  issued_at = at;
  expires_at = at + 5_000;
  expected_type = "";
}

abbrev pub register : String → Option Payload
register t =
    if str_eq t "a1"
    then some (access_claims 901 "a1")
    else if str_eq t "r1"
    then some (refresh_claims 900 "r1")
    else if str_eq t "a2"
    then some (access_claims 1_001 "a2")
    else if str_eq t "r2"
    then some (refresh_claims 1_000 "r2")
    else none

abbrev pub jwt : Jwt
jwt = register_jwt register

abbrev pub laws : JwtLaws jwt
laws = register_laws register

abbrev pub maker : JwtMaker
maker = record { secret_key = "key" }

refresh_made :
    create_token jwt maker (draw 900 "r1") "alice" "depositor" refresh 5_000
    ≡ ok ("r1", refresh_claims 900 "r1")
unfolding create_token new_payload new_payload_with_id sign_payload
refresh_made = refl

create_token-verdict_example :
    verify_token jwt maker "r1" refresh 1_000
    ≡ valid (record (refresh_claims 900 "r1") { expected_type = refresh })
create_token-verdict_example =
    create_token-verdict jwt laws maker (draw 900 "r1") "alice" "depositor" refresh 5_000
      refresh_made (inr refl) refresh 1_000 (inr refl)
