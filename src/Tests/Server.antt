-- ===== src/Tests/Server.antt =====
-- internal/config/config.go, internal/api/middleware.go and cmd/app/main.go: a configuration, a
-- request and a run of the service.
use simplebank.Api.Handler.{done}
use simplebank.Api.Origin.{
  before_comma, Net, HttpRequest, same_origin, trusted_forwarding_headers, forged_origin_refused,
  is_bare, is_expected, own_origin, foreign_site, forwarded_host_of,
}
use simplebank.Config.{
  Json, object, CurrencyLimit, parse_transfer_limits, parse_account_opening_limits, parse_limits,
  first_error, check_transfer_limit, check_opening_limit,
}
use simplebank.Config.Settings.{Command, Settings, Url, from_command, validate_settings}
use simplebank.Currency.{is_supported}
use simplebank.Errors.{ok}
use simplebank.Prelude.{
  ◌≡◌, ◌∷◌, [], refl, none, some, pos, ℤ, String, true, false, Option, str_eq, if◌then◌else◌,
}

abbrev pub command : Command
command = record {
  text = λ flag.
      if str_eq flag "db-source"
      then "postgres"
      else if str_eq flag "jwt-secret"
      then "a secret"
      else if str_eq flag "smtp-from"
      then "bank"
      else if str_eq flag "transfer-limits"
      then "limits"
      else if str_eq flag "public-base-url"
      then "https://bank"
      else "";
  int32 = λ flag. pos 0;
  int = λ flag. pos 0;
  duration = λ flag. pos 900;
  bool = λ flag. true;
  string_slice = λ flag. [];
}

abbrev bank_url : Url
bank_url = record {
  scheme = "https";
  host = "bank";
  hostname = "bank";
  has_user = false;
  path = "";
  raw_query = "";
  fragment = "";
}

abbrev pub parse_url : String → Option Url
parse_url t = if str_eq t "https://bank" then some bank_url else none

abbrev pub limits_of : String → Json CurrencyLimit
limits_of t = object (("USD", record { max_per_transfer = pos 50; daily = pos 100 }) ∷ [])

abbrev pub caps_of : String → Json ℤ
caps_of t = object []

abbrev pub settings : Settings
settings = from_command (λ t. str_eq t "") limits_of caps_of command

settings_pass : validate_settings (λ t. 32) parse_url str_eq settings ≡ ok tt
unfolding validate_settings from_command parse_transfer_limits parse_account_opening_limits
    parse_limits first_error check_transfer_limit check_opening_limit is_supported
settings_pass = refl

abbrev pub net : Net
net = record {
  parse = parse_url;
  equal_fold = str_eq;
  trim_space = λ t. t;
  contains = λ cidr address. false;
}

abbrev pub browser : HttpRequest
browser = record {
  host = "bank";
  remote_addr = "::1";
  has_tls = true;
  headers = record {
    sec_fetch_site = "same-origin";
    origin = "https://bank";
    forwarded_for = "";
    forwarded_proto = "http";
    forwarded_host = "evil";
  };
}

first_host : before_comma "one, two" ≡ "one"
first_host = refl

only_host : before_comma "one" ≡ "one"
only_host = refl

browser_passes : same_origin net "" (trusted_forwarding_headers net [] browser) ≡ done tt
unfolding same_origin trusted_forwarding_headers forwarded_host_of
browser_passes = refl

forged_origin_refused_example :
    (got : Url) × (parse_url "https://bank" ≡ some got)
    × (is_bare net got ≡ true)
    × (is_expected net got (own_origin net "" browser) ≡ true)
    × (foreign_site net browser.headers ≡ false)
forged_origin_refused_example = forged_origin_refused net [] "" browser refl refl browser_passes
