-- ===== src/Api/Routes/Passed.antt =====
-- internal/api/routes.go: what a request has that passed its middleware.
use simplebank.Api.Handler.{Reply, done, fails}
use simplebank.Api.Origin.{same_origin}
use simplebank.Api.Routes.{
  Guard, no_store, credential_limiter, auth_limiter, checks_origin, authenticated, Incoming,
  Setting, endpoint_client, limit, after_origin, of_token, authenticate, run_guard, and_run,
  run_guards,
}
use simplebank.Prelude.{
  ◌≡◌, refl, subst, ◌⊎◌, inl, inr, Bool-cases, String, Bool, true, false, Option, none, some, List,
  [], ◌∷◌, exists,
}
use simplebank.Token.{
  Payload, Parse, parsed, other_claims, parse_error, access, new_expected_payload,
}

abbrev pub authenticates : Guard → Bool
authenticates authenticated = true
authenticates _ = false

abbrev pub guards_origin : Guard → Bool
guards_origin checks_origin = true
guards_origin _ = false

abbrev pub limits_passwords : Guard → Bool
limits_passwords credential_limiter = true
limits_passwords _ = false

module _ (s : Setting) (r : Incoming) where
  -- The claims of an access token that the request carries.
  pub record HasAccess (payload : Option Payload) : Type 0 where
    pub claims : Payload
    pub raw : String
    pub in_context : payload ≡ some claims
    pub carried : r.bearer ≡ some raw
    pub verified :
        s.jwt.parse_with_claims s.jwt_secret raw (new_expected_payload access) s.now
        ≡ parsed claims true

  went_on :
      (x : Reply (Option Payload)) (rest : Option Payload → Reply (Option Payload))
      (p : Option Payload)
      → and_run x rest ≡ done p
      → (q : Option Payload) × (x ≡ done q) × (rest q ≡ done p)
  went_on (done q) rest p h = (q, refl, h)
  went_on (fails e) rest p h = absurd (cc h)

  token_read :
      (raw : String) (x : Parse) (p : Option Payload)
      → r.bearer ≡ some raw
      → s.jwt.parse_with_claims s.jwt_secret raw (new_expected_payload access) s.now ≡ x
      → of_token s x ≡ done p
      → HasAccess p
  token_read raw (parsed c true) p b e h = record {
    claims = c;
    raw = raw;
    in_context = cc h;
    carried = b;
    verified = e;
  }
  token_read raw (parsed c false) p b e h = absurd (cc h)
  token_read raw other_claims p b e h = absurd (cc h)
  token_read raw (parse_error _) p b e h = absurd (cc h)

  authenticated_by :
      (bearer : Option String) (p : Option Payload)
      → r.bearer ≡ bearer
      → authenticate s bearer ≡ done p
      → HasAccess p
  authenticated_by none p e h = absurd (cc h)
  authenticated_by (some raw) p e h = token_read raw _ p e refl h

  limited : (b : Bool) (p q : Option Payload) → limit b p ≡ done q → (b ≡ true) × (p ≡ q)
  limited true p q h = (refl, cc h)
  limited false p q h = absurd (cc h)

  from_origin :
      (x : Reply (Unit {0})) (p q : Option Payload)
      → after_origin x p ≡ done q
      → (x ≡ done tt) × (p ≡ q)
  from_origin (done _) p q h = (refl, cc h)
  from_origin (fails e) p q h = absurd (cc h)

  -- A guard of a kind was passed.
  pub kind_passed :
      (kind : Guard → Bool) (Fact : Type 0)
      → ((g : Guard) (p q : Option Payload) → kind g ≡ true → run_guard s r g p ≡ done q → Fact)
      → (gs : List Guard) (p q : Option Payload) → exists kind gs ≡ true
      → run_guards s r gs p ≡ done q
      → Fact
  unfolding run_guards
  kind_passed kind Fact step [] p q e h = absurd (cc e)
  kind_passed kind Fact step (g ∷ gs) p q e h =
      let (p', first, rest) = went_on (run_guard s r g p) (run_guards s r gs) q h in
      elim (Bool-cases (kind g)) [
        | inl here ↦ step g p p' here first
        | inr there ↦ kind_passed kind Fact step gs p' q (rw there at e) rest
      ]

  pub origin_fact :
      (g : Guard) (p q : Option Payload)
      → guards_origin g ≡ true
      → run_guard s r g p ≡ done q
      → same_origin s.net s.public_base_url r.http ≡ done tt
  origin_fact checks_origin p q k h = (from_origin _ p q h).0
  origin_fact no_store p q k h = absurd (cc k)
  origin_fact credential_limiter p q k h = absurd (cc k)
  origin_fact auth_limiter p q k h = absurd (cc k)
  origin_fact authenticated p q k h = absurd (cc k)

  pub limit_fact :
      (g : Guard) (p q : Option Payload)
      → limits_passwords g ≡ true
      → run_guard s r g p ≡ done q
      → s.admits credential_limiter (endpoint_client r) ≡ true
  limit_fact credential_limiter p q k h = (limited _ p q h).0
  limit_fact no_store p q k h = absurd (cc k)
  limit_fact checks_origin p q k h = absurd (cc k)
  limit_fact auth_limiter p q k h = absurd (cc k)
  limit_fact authenticated p q k h = absurd (cc k)

  -- Access that the context has is kept, and is there once the token was checked.
  access_kept :
      (g : Guard) (p q : Option Payload)
      → run_guard s r g p ≡ done q
      → HasAccess p ⊎ (authenticates g ≡ true)
      → HasAccess q
  access_kept authenticated p q h a = authenticated_by r.bearer q refl h
  access_kept no_store p q h (inl a) = subst HasAccess (cc h) a
  access_kept no_store p q h (inr k) = absurd (cc k)
  access_kept credential_limiter p q h (inl a) = subst HasAccess (limited _ p q h).1 a
  access_kept credential_limiter p q h (inr k) = absurd (cc k)
  access_kept auth_limiter p q h (inl a) = subst HasAccess (limited _ p q h).1 a
  access_kept auth_limiter p q h (inr k) = absurd (cc k)
  access_kept checks_origin p q h (inl a) = subst HasAccess (from_origin _ p q h).1 a
  access_kept checks_origin p q h (inr k) = absurd (cc k)

  pub access_passed :
      (gs : List Guard) (p q : Option Payload)
      → run_guards s r gs p ≡ done q
      → HasAccess p ⊎ (exists authenticates gs ≡ true)
      → HasAccess q
  unfolding run_guards
  access_passed [] p q h (inl a) = subst HasAccess (cc h) a
  access_passed [] p q h (inr e) = absurd (cc e)
  access_passed (g ∷ gs) p q h (inl a) =
      let (p', first, rest) = went_on (run_guard s r g p) (run_guards s r gs) q h in
      access_passed gs p' q rest (inl (access_kept g p p' first (inl a)))
  access_passed (g ∷ gs) p q h (inr e) =
      let (p', first, rest) = went_on (run_guard s r g p) (run_guards s r gs) q h in
      elim (Bool-cases (authenticates g)) [
        | inl here ↦ access_passed gs p' q rest (inl (access_kept g p p' first (inr here)))
        | inr there ↦ access_passed gs p' q rest (inr (rw there at e))
      ]
