-- ===== src/Token.antt =====
-- internal/token: the claims of a token, and the maker of signed tokens.
pub mod Claims
use simplebank.Prelude.{
  ◌+◌, ◌<◌, ◌≤◌, ◌≡◌, ltb, not, ◌&&◌, ℕ, String, Bool, true, false, Option, none, some, str_eq,
  if◌then◌else◌,
}
use simplebank.Errors.{Result, ok, err, Error, ◌>>=◌, foreign}

pub data TokenError : Type 0 where
  err_expired_token err_invalid_token : TokenError

abbrev pub access : String
access = "access"

abbrev pub refresh : String
refresh = "refresh"

-- The registered claims ID and Subject repeat `id` and `username`. Every token of the maker has
-- the claims IssuedAt and ExpiresAt.
pub record Payload : Type 0 where
  pub id : ℕ
  pub username : String
  pub role : String
  pub token_type : String
  pub nonce : String
  pub issued_at : ℕ
  pub expires_at : ℕ
  pub expected_type : String

abbrev pub new_expected_payload : String → Payload
new_expected_payload expected_type = record {
  id = 0;
  username = "";
  role = "";
  token_type = "";
  nonce = "";
  issued_at = 0;
  expires_at = 0;
  expected_type = expected_type;
}

unfoldable pub validate : Payload → Option TokenError
validate p =
    if not (str_eq p.expected_type "") && not (str_eq p.token_type p.expected_type)
    then some err_invalid_token
    else if not (str_eq p.token_type access) && not (str_eq p.token_type refresh)
    then some err_invalid_token
    else none

-- What is drawn for a payload: `uuid.NewV7()`, `uuid.New()` and `time.Now()`.
pub record Draw : Type 0 where
  pub id : ℕ
  pub nonce : String
  pub now : ℕ

-- What `jwt.ParseWithClaims` answers: the claims and whether the token is valid, claims of another
-- type, or an error that is `jwt.ErrTokenExpired` or is not.
pub data Parse : Type 0 where
  parsed : Payload → Bool → Parse
  other_claims : Parse
  parse_error : Bool → Parse

-- The package jwt, for the method HS256 and a key. The parser is given the claims to decode into
-- and the time. `numeric_date` is the precision of a date.
pub record Jwt : Type 0 where
  pub signed_string : String → Payload → Result String
  pub parse_with_claims : String → String → Payload → ℕ → Parse
  pub numeric_date : ℕ → ℕ

-- The unexported field is not part of a token.
abbrev pub decoded : Payload → Payload → Payload
decoded claims p = record p { expected_type = claims.expected_type }

-- What the package documents: a signed token is parsed into the claims that were signed, the
-- parser refuses what has expired, and then what `Validate` refuses.
pub record JwtLaws (jwt : Jwt) : Type 0 where
  pub parses :
      (key : String) (p claims : Payload) (now : ℕ) (t : String)
      → jwt.signed_string key p ≡ ok t
      → now < p.expires_at
      → validate (decoded claims p) ≡ none
      → jwt.parse_with_claims key t claims now ≡ parsed (decoded claims p) true
  pub validates :
      (key : String) (p claims : Payload) (now : ℕ) (t : String) (e : TokenError)
      → jwt.signed_string key p ≡ ok t
      → now < p.expires_at
      → validate (decoded claims p) ≡ some e
      → jwt.parse_with_claims key t claims now ≡ parse_error false
  pub expires :
      (key : String) (p claims : Payload) (now : ℕ) (t : String)
      → jwt.signed_string key p ≡ ok t
      → p.expires_at ≤ now
      → jwt.parse_with_claims key t claims now ≡ parse_error true

-- The maker, of `NewJWTMaker`.
pub record JwtMaker : Type 0 where
  pub secret_key : String

-- The length of the key is in bytes.
unfoldable pub new_jwt_maker : (String → ℕ) → String → Result JwtMaker
new_jwt_maker byte_length secret_key =
    if ltb (byte_length secret_key) 32
    then err (foreign "secret key must be at least 32 characters")
    else ok (record { secret_key = secret_key })

module _ (jwt : Jwt) where
  unfoldable pub new_payload_with_id : Draw → ℕ → String → String → String → ℕ → Payload
  new_payload_with_id draw id username role token_type duration = record {
    id = id;
    username = username;
    role = role;
    token_type = token_type;
    nonce = draw.nonce;
    issued_at = jwt.numeric_date draw.now;
    expires_at = jwt.numeric_date (draw.now + duration);
    expected_type = "";
  }

  unfoldable pub new_payload : Draw → String → String → String → ℕ → Payload
  unfolding new_payload_with_id
  new_payload draw username role token_type duration =
      new_payload_with_id draw draw.id username role token_type duration

  unfoldable pub sign_payload : JwtMaker → Payload → Result (String × Payload)
  sign_payload maker payload = do
    signed ← jwt.signed_string maker.secret_key payload
    ok (signed, payload)

  unfoldable pub create_token :
      JwtMaker → Draw → String → String → String → ℕ → Result (String × Payload)
  unfolding new_payload sign_payload
  create_token maker draw username role token_type duration =
      sign_payload maker (new_payload draw username role token_type duration)

  unfoldable pub create_token_with_id :
      JwtMaker → Draw → ℕ → String → String → String → ℕ → Result (String × Payload)
  unfolding new_payload_with_id sign_payload
  create_token_with_id maker draw id username role token_type duration =
      sign_payload maker (new_payload_with_id draw id username role token_type duration)

pub data Verified : Type 0 where
  valid : Payload → Verified
  refuses : TokenError → Verified

abbrev pub of_parse : Parse → Verified
of_parse (parsed p true) = valid p
of_parse (parsed p false) = refuses err_invalid_token
of_parse other_claims = refuses err_invalid_token
of_parse (parse_error true) = refuses err_expired_token
of_parse (parse_error false) = refuses err_invalid_token

unfoldable pub verify_token : Jwt → JwtMaker → String → String → ℕ → Verified
verify_token jwt maker token expected_type now =
    of_parse (jwt.parse_with_claims maker.secret_key token (new_expected_payload expected_type) now)
