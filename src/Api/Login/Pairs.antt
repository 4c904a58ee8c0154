-- ===== src/Api/Login/Pairs.antt =====
-- internal/api/user.go: `issueTokenPair` and `issueTokenPairWithRefreshID`.
use simplebank.Api.Tokens.{
  Server, Request, TokenPair, issue_token_pair, issue_token_pair_with_refresh_id, pair_of,
}
use simplebank.Errors.{Result, ok, err}
use simplebank.Prelude.{ap₂, ◌≡◌, ◌∙◌, ◌==◌, ap, ℕ, String, false, refl}
use simplebank.Token.{
  Payload, Jwt, JwtMaker, access, refresh, create_token, create_token_with_id, new_payload,
  new_payload_with_id, sign_payload,
}
use simplebank.Token.Claims.{signed_of}

-- The payload of the refresh token of a login.
abbrev pub login_payload : Server → Request → String → String → Payload
login_payload server request username role =
    new_payload server.jwt request.refresh_draw username role refresh server.refresh_ttl

-- The tokens of a renewal: the package jwt signs both of its payloads with the server's key.
pub record Signs (server : Server) (request : Request) (id : ℕ) (username role : String)
    : Type 0 where
  pub access_token : String
  pub refresh_token : String
  pub access_signed :
      server.jwt.signed_string server.token_maker.secret_key
        (new_payload server.jwt request.access_draw username role access server.access_ttl)
      ≡ ok access_token
  pub refresh_signed :
      server.jwt.signed_string server.token_maker.secret_key (
        new_payload_with_id server.jwt request.refresh_draw id username role refresh
          server.refresh_ttl)
      ≡ ok refresh_token

-- A pair is its second token, with the payload that was signed.
pair_of-signed :
    (jwt : Jwt) (maker : JwtMaker) (p : Payload) (a r : Result (String × Payload))
    {tokens : TokenPair}
    → sign_payload jwt maker p ≡ r
    → pair_of a r ≡ ok tokens
    → (jwt.signed_string maker.secret_key tokens.refresh_payload ≡ ok tokens.refresh)
      × (tokens.refresh_payload ≡ p)
pair_of-signed jwt maker p (err x) r s h = absurd (cc h)
pair_of-signed jwt maker p (ok a) (err x) s h = absurd (cc h)
pair_of-signed jwt maker p (ok (u, o)) (ok (t, q)) {tokens} s h =
    let (signed, same) = signed_of jwt maker p s in
    let payload : tokens.refresh_payload ≡ q = cc h in
    let token : t ≡ tokens.refresh = cc h in
    (
      ap (jwt.signed_string maker.secret_key) (payload ∙ same) ∙ signed ∙ ap ok token,
      payload ∙ same,
    )

sign_payload-ok :
    (jwt : Jwt) (maker : JwtMaker) (p : Payload) {t : String}
    → jwt.signed_string maker.secret_key p ≡ ok t
    → sign_payload jwt maker p ≡ ok (t, p)
unfolding sign_payload
sign_payload-ok jwt maker p h = rw h

module _ (server : Server) (request : Request) (username role : String) where
  pub issue_token_pair-signed :
      {tokens : TokenPair}
      → issue_token_pair server request username role ≡ ok tokens
      → (server.jwt.signed_string server.token_maker.secret_key tokens.refresh_payload
          ≡ ok tokens.refresh)
        × (tokens.refresh_payload ≡ login_payload server request username role)
  unfolding issue_token_pair issue_token_pair_with_refresh_id create_token
  issue_token_pair-signed h =
      pair_of-signed server.jwt server.token_maker (login_payload server request username role) _ _
        refl h

  pub issue_with_id-succeeds :
      (id : ℕ)
      → Signs server request id username role
      → (id == 0) ≡ false
      → (tokens : TokenPair) × (issue_token_pair_with_refresh_id server request id username role
          ≡ ok tokens)
        × (tokens.refresh_payload.id ≡ id)
  unfolding issue_token_pair_with_refresh_id create_token create_token_with_id new_payload_with_id
  issue_with_id-succeeds id signs given =
      let p = new_payload server.jwt request.access_draw username role access server.access_ttl in
      let q =
        new_payload_with_id server.jwt request.refresh_draw id username role refresh
          server.refresh_ttl in
      (
        record {
          access = signs.access_token;
          access_payload = p;
          refresh = signs.refresh_token;
          refresh_payload = q;
        },
        ap₂ pair_of {v = ok (signs.refresh_token, q)}
            (sign_payload-ok server.jwt server.token_maker p signs.access_signed)
            (rw (given, sign_payload-ok server.jwt server.token_maker q signs.refresh_signed)),
        refl,
      )
