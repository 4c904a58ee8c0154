-- ===== src/Currency.antt =====
-- internal/currency/currency.go.
use simplebank.Prelude.{ℤ, pos, ◌-◌, ◌^◌, String, Bool, true, str_eq, if◌then◌else◌}

abbrev pub usd : String
usd = "USD"

abbrev pub eur : String
eur = "EUR"

abbrev pub vnd : String
vnd = "VND"

-- 2^53 - 1, the largest integer that a JSON number carries exactly to the frontend.
abbrev pub max_safe_minor_units : ℤ
max_safe_minor_units = pos (2 ^ 53 - 1)

unfoldable pub is_supported : String → Bool
is_supported currency =
    if str_eq currency usd then true else if str_eq currency eur then true else str_eq currency vnd
