-- ===== src/Api/Meta.antt =====
-- internal/api/meta.go, and the probes of internal/api/server.go. What a map that is not there
-- encodes to is an empty object.
use simplebank.Config.{CurrencyLimit, Limits, accepted, rejected}
use simplebank.Prelude.{ℕ, ℤ, String, Option, none, some, List, []}

-- A status code with a value that is encoded.
pub record Response (A : Type 0) : Type 0 where
  pub status : ℕ
  pub value : A

-- A parser that failed left no map.
abbrev pub or_empty : {A : Type 0} → Limits A → List (String × A)
or_empty (accepted table) = table
or_empty (rejected _) = []

unfoldable pub transfer_limits : Limits CurrencyLimit → Response (List (String × CurrencyLimit))
transfer_limits limits = record { status = 200; value = or_empty limits }

unfoldable pub account_opening_limits : Limits ℤ → Response (List (String × ℤ))
account_opening_limits limits = record { status = 200; value = or_empty limits }

unfoldable pub livez : Response String
livez = record { status = 200; value = "ok" }

-- What the readiness probe answers; none was given where the server is always ready.
abbrev pub readiness_of : {E : Type 0} → Option (Option E) → Option E
readiness_of none = none
readiness_of (some answer) = answer

unfoldable pub readyz : {E : Type 0} → Option (Option E) → Response String
readyz probe = elim (readiness_of probe) [
  | none ↦ record { status = 200; value = "ready" }
  | some e ↦ record { status = 503; value = "unavailable" }
]
