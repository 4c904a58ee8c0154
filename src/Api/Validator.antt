-- ===== src/Api/Validator.antt =====
-- internal/api/validator.go: how a request is bound and validated.
use Prim.Native.String.{len}
use simplebank.Api.Errors.{new_api_error}
use simplebank.Api.Handler.{Reply, done, fails}
use simplebank.Errors.{Result, ok, err}
use simplebank.Prelude.{ℤ, pos, leb_ℤ, String, Bool, if◌then◌else◌}

-- The length is in bytes. `atoi` is `strconv.Atoi`, and `limit` the parameter of the rule.
unfoldable pub validate_max_bytes : (String → Result ℤ) → String → String → Bool
validate_max_bytes atoi limit field = elim (atoi limit) [
  | err e ↦ Bool.false
  | ok n ↦ leb_ℤ (pos (len field)) n
]

-- Whether the rules of a struct hold is what the package validator says.
unfoldable pub validate_struct : Bool → Reply (Unit {0})
validate_struct holds =
    if holds
    then done tt
    else fails (new_api_error 400 "invalid_request_payload" "invalid request payload")

-- What echo bound of the body, and the rules of its type.
unfoldable pub bind_validate : {A : Type 0} → (A → Bool) → Result A → Reply A
unfolding validate_struct
bind_validate rules (err e) =
    fails (new_api_error 400 "invalid_request_body" "invalid request body")
bind_validate rules (ok req) = elim (validate_struct (rules req)) [
  | fails e ↦ fails e
  | done _ ↦ done req
]
