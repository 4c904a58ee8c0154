-- ===== src/Config/Settings.antt =====
-- internal/config/config.go: the configuration, how it is read from the command, and `Validate`.
use simplebank.Config.{
  Json, CurrencyLimit, Limits, accepted, rejected, parse_transfer_limits,
  parse_account_opening_limits,
}
use simplebank.Errors.{Result, ok, err, foreign, refuse_if, ◌>>◌}
use simplebank.Prelude.{
  ℕ, ℤ, pos, leb_ℤ, ltb, String, Bool, true, false, not, ◌&&◌, ◌||◌, List, Option, none, some,
  str_eq,
}

-- A duration is a number of nanoseconds.
pub record Settings : Type 0 where
  pub http_addr : String
  pub db_source : String
  pub db_max_conns : ℤ
  pub db_min_conns : ℤ
  pub db_max_conn_lifetime : ℤ
  pub db_max_conn_idle_time : ℤ
  pub jwt_secret : String
  pub access_ttl : ℤ
  pub refresh_ttl : ℤ
  pub smtp_host : String
  pub smtp_port : ℤ
  pub smtp_username : String
  pub smtp_password : String
  pub smtp_from : String
  pub smtp_insecure : Bool
  pub smtp_ssl : Bool
  pub smtp_tls_ca_file : String
  pub river_max_workers : ℤ
  pub tls_cert_file : String
  pub tls_key_file : String
  pub trusted_proxies : List String
  pub public_base_url : String
  pub session_cookie_secure : Bool
  pub transfer_limits : Limits CurrencyLimit
  pub account_opening_limits : Limits ℤ

-- The flags of a command, by the kind of their values.
pub record Command : Type 0 where
  pub text : String → String
  pub int32 : String → ℤ
  pub int : String → ℤ
  pub duration : String → ℤ
  pub bool : String → Bool
  pub string_slice : String → List String

-- `blank` is whether nothing is left of a text that is trimmed, and the decoders are json's.
unfoldable pub from_command :
    (String → Bool) → (String → Json CurrencyLimit) → (String → Json ℤ) → Command → Settings
from_command blank decode_limits decode_caps cmd = record {
  http_addr = cmd.text "http-addr";
  db_source = cmd.text "db-source";
  db_max_conns = cmd.int32 "db-max-conns";
  db_min_conns = cmd.int32 "db-min-conns";
  db_max_conn_lifetime = cmd.duration "db-max-conn-lifetime";
  db_max_conn_idle_time = cmd.duration "db-max-conn-idle-time";
  jwt_secret = cmd.text "jwt-secret";
  access_ttl = cmd.duration "access-ttl";
  refresh_ttl = cmd.duration "refresh-ttl";
  smtp_host = cmd.text "smtp-host";
  smtp_port = cmd.int "smtp-port";
  smtp_username = cmd.text "smtp-username";
  smtp_password = cmd.text "smtp-password";
  smtp_from = cmd.text "smtp-from";
  smtp_insecure = cmd.bool "smtp-insecure";
  smtp_ssl = cmd.bool "smtp-ssl";
  smtp_tls_ca_file = cmd.text "smtp-tls-ca-file";
  river_max_workers = cmd.int "river-max-workers";
  tls_cert_file = cmd.text "tls-cert-file";
  tls_key_file = cmd.text "tls-key-file";
  trusted_proxies = cmd.string_slice "trusted-proxies";
  public_base_url = cmd.text "public-base-url";
  session_cookie_secure = cmd.bool "session-cookie-secure";
  transfer_limits =
      parse_transfer_limits (blank (cmd.text "transfer-limits"))
        (decode_limits (cmd.text "transfer-limits"));
  account_opening_limits =
      parse_account_opening_limits (blank (cmd.text "account-opening-limits"))
        (decode_caps (cmd.text "account-opening-limits"));
}

-- What `url.Parse` finds.
pub record Url : Type 0 where
  pub scheme : String
  pub host : String
  pub hostname : String
  pub has_user : Bool
  pub path : String
  pub raw_query : String
  pub fragment : String

abbrev pub is_rejected : {A : Type 0} → Limits A → Bool
is_rejected (accepted _) = false
is_rejected (rejected _) = true

abbrev pub differ : Bool → Bool → Bool
differ a b = (a && not b) || (not a && b)

-- `len` of a string, `url.Parse` and `strings.EqualFold`.
module _ (byte_length : String → ℕ) (parse : String → Option Url)
    (equal_fold : String → String → Bool) where
  abbrev pub is_origin : Url → Bool
  is_origin u =
      not (str_eq u.host "")
      && not (str_eq u.hostname "")
      && not u.has_user
      && str_eq u.path ""
      && str_eq u.raw_query ""
      && str_eq u.fragment ""

  abbrev pub check_base_url : Settings → Option Url → Result (Unit {0})
  check_base_url c none = err (foreign "invalid public-base-url")
  check_base_url c (some u) = do
    refuse_if (not (equal_fold u.scheme "http") && not (equal_fold u.scheme "https"))
        (foreign "public-base-url must use an explicit http or https scheme")
    refuse_if (not (is_origin u))
        (foreign "public-base-url must be an origin without credentials, path, query, or fragment")
    refuse_if (equal_fold u.scheme "https" && not c.session_cookie_secure)
        (foreign "session-cookie-secure must be true for an HTTPS public-base-url")

  abbrev pub check_public_base_url : Settings → Result (Unit {0})
  check_public_base_url c = elim (str_eq c.public_base_url "") [
    | true ↦ ok tt
    | false ↦ check_base_url c (parse c.public_base_url)
  ]

  unfoldable pub validate_settings : Settings → Result (Unit {0})
  validate_settings c = do
    refuse_if (str_eq c.db_source "") (foreign "db-source is required")
    refuse_if (ltb (byte_length c.jwt_secret) 32)
        (foreign "jwt-secret must be at least 32 characters")
    refuse_if (leb_ℤ c.access_ttl (pos 0)) (foreign "access-ttl must be positive")
    refuse_if (leb_ℤ c.refresh_ttl (pos 0)) (foreign "refresh-ttl must be positive")
    refuse_if (str_eq c.smtp_from "") (foreign "smtp-from is required")
    refuse_if (differ (str_eq c.tls_cert_file "") (str_eq c.tls_key_file ""))
        (foreign "tls-cert-file and tls-key-file must be set together")
    refuse_if (not (str_eq c.tls_cert_file "") && not c.session_cookie_secure)
        (foreign "session-cookie-secure must be true when direct TLS is configured")
    check_public_base_url c
    refuse_if (is_rejected c.transfer_limits) (foreign "invalid transfer-limits")
    refuse_if (is_rejected c.account_opening_limits) (foreign "invalid account-opening-limits")
