-- ===== src/Config/Accepted.antt =====
-- internal/config/config.go: what a configuration that `Validate` accepts is known to be.
use simplebank.Config.{
  accepted_limits_in_range, no_limit, lookup, rejected, LimitInRange, Limits, accepted, Json,
  CurrencyLimit,
}
use simplebank.Config.Settings.{
  is_rejected, differ, Command, from_command, check_public_base_url, check_base_url, Settings, Url,
  validate_settings,
}
use simplebank.Errors.{err, ◌>>◌, refuse_if, Result, Error, ok}
use simplebank.Prelude.{
  refl, ◌&&◌, leb_ℤ, ltb, ℤ, List, none, false, not, some, ◌||◌, ◌≡◌, ◌≤ℤ◌, ℕ, pos, str_eq, String,
  Bool, true, Option, arith,
}
use simplebank.Token.{new_jwt_maker}

-- With an https address the cookie is secure. A text that is empty is no address.
abbrev pub url_is_secure : (String → String → Bool) → Settings → Option Url → Bool
url_is_secure equal_fold c none = str_eq c.public_base_url ""
url_is_secure equal_fold c (some u) =
    str_eq c.public_base_url "" || not (equal_fold u.scheme "https") || c.session_cookie_secure

-- What the server relies on: a secret that makes a token maker, positive lifetimes, a certificate
-- with its key, and a cookie that is secure where the connection or the public address is.
pub record Sound (byte_length : String → ℕ) (parse : String → Option Url)
    (equal_fold : String → String → Bool) (c : Settings) : Type 0 where
  pub maker : new_jwt_maker byte_length c.jwt_secret ≡ ok (record { secret_key = c.jwt_secret })
  pub access_positive : pos 1 ≤ℤ c.access_ttl
  pub refresh_positive : pos 1 ≤ℤ c.refresh_ttl
  pub tls_pair : str_eq c.tls_cert_file "" ≡ str_eq c.tls_key_file ""
  pub tls_secure : (str_eq c.tls_cert_file "" || c.session_cookie_secure) ≡ true
  pub url_secure : url_is_secure equal_fold c (parse c.public_base_url) ≡ true

module _ (byte_length : String → ℕ) (parse : String → Option Url)
    (equal_fold : String → String → Bool) where
  passed_url :
      (c : Settings) (u : Option Url)
      → (elim (str_eq c.public_base_url "") [
        | true ↦ ok tt
        | false ↦ check_base_url byte_length parse equal_fold c u
      ])
        ≡ ok tt
      → url_is_secure equal_fold c u ≡ true
  passed_url c none h = ground arith
  passed_url c (some u) h = ground arith

-- A chain of checks that was passed.
not_refused :
    (c : Bool) (e : Error) (rest : Result (Unit {0}))
    → (refuse_if c e >> rest) ≡ ok tt
    → (c ≡ false) × (rest ≡ ok tt)
not_refused true e rest h = absurd (cc h)
not_refused false e rest h = (refl, h)

went_on :
    (check rest : Result (Unit {0})) → (check >> rest) ≡ ok tt → (check ≡ ok tt) × (rest ≡ ok tt)
went_on (err e) rest h = absurd (cc h)
went_on (ok _) rest h = (refl, h)

same_if_not_differ : (a b : Bool) → differ a b ≡ false → a ≡ b
same_if_not_differ a b h = ground arith

not_both : (a b : Bool) → (not a && not b) ≡ false → (a || b) ≡ true
not_both a b h = ground arith

made :
    (byte_length : String → ℕ) (secret : String)
    → ltb (byte_length secret) 32 ≡ false
    → new_jwt_maker byte_length secret ≡ ok (record { secret_key = secret })
unfolding new_jwt_maker
made byte_length secret h = rw h

positive : (t : ℤ) → leb_ℤ t (pos 0) ≡ false → pos 1 ≤ℤ t
positive t h = ground arith

accepted_table :
    (l : Limits CurrencyLimit)
    → is_rejected l ≡ false
    → (table : List (String × CurrencyLimit)) × (l ≡ accepted table)
accepted_table (accepted table) h = (table, refl)
accepted_table (rejected e) h = absurd (cc h)

checks_passed :
    (byte_length : String → ℕ) (parse : String → Option Url) (equal_fold : String → String → Bool)
    (c : Settings)
    → validate_settings byte_length parse equal_fold c ≡ ok tt
    → Sound byte_length parse equal_fold c
      × (table : List (String × CurrencyLimit)) × (c.transfer_limits ≡ accepted table)
unfolding validate_settings
checks_passed byte_length parse equal_fold c h =
    let (_, h1) = not_refused _ _ _ h in
    let (secret, h2) = not_refused _ _ _ h1 in
    let (access, h3) = not_refused _ _ _ h2 in
    let (refresh, h4) = not_refused _ _ _ h3 in
    let (_, h5) = not_refused _ _ _ h4 in
    let (pair, h6) = not_refused _ _ _ h5 in
    let (tls, h7) = not_refused _ _ _ h6 in
    let (url, h8) = went_on (check_public_base_url byte_length parse equal_fold c) _ h7 in
    let (limits, _) = not_refused _ _ _ h8 in
    let (table, same) = accepted_table c.transfer_limits limits in
    (
      record {
        maker = made byte_length c.jwt_secret secret;
        access_positive = positive c.access_ttl access;
        refresh_positive = positive c.refresh_ttl refresh;
        tls_pair = same_if_not_differ _ _ pair;
        tls_secure = not_both _ _ tls;
        url_secure = passed_url byte_length parse equal_fold c (parse c.public_base_url) url;
      },
      table,
      same,
    )

-- A configuration that was read from the command and accepted is sound: a token maker can be made
-- of its secret, the lifetimes of tokens are positive, a certificate comes with its key, the
-- cookie is secure where the server speaks TLS or has an https address, and the transfer limits
-- are a table whose limits lie, for every currency, between 0 and 2^53 - 1.
pub accepted_settings-Sound :
    (byte_length : String → ℕ) (parse : String → Option Url) (equal_fold : String → String → Bool)
    (blank : String → Bool) (decode_limits : String → Json CurrencyLimit)
    (decode_caps : String → Json ℤ) (cmd : Command)
    → validate_settings byte_length parse equal_fold
        (from_command blank decode_limits decode_caps cmd)
      ≡ ok tt
    → Sound byte_length parse equal_fold (from_command blank decode_limits decode_caps cmd)
      × (table : List (String × CurrencyLimit)) × ((from_command blank decode_limits decode_caps
            cmd).transfer_limits
          ≡ accepted table)
      × ((code : String) → LimitInRange (lookup no_limit table code))
unfolding from_command
accepted_settings-Sound byte_length parse equal_fold blank decode_limits decode_caps cmd h =
    let c = from_command blank decode_limits decode_caps cmd in
    let (sound, table, e) = checks_passed byte_length parse equal_fold c h in
    (
      sound,
      table,
      e,
      λ code.
          accepted_limits_in_range (blank (cmd.text "transfer-limits"))
            (decode_limits (cmd.text "transfer-limits")) table code e,
    )
