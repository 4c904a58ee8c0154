-- ===== src/Api/Errors.antt =====
-- internal/api/errors.go: the errors of the handlers, and what the client sees of them.
use simplebank.Prelude.{str_eq, ◌==◌, not, if◌then◌else◌, none, String, some, Option, ℕ}
use simplebank.Errors.{
  username_exists, email_exists, unique_violation, foreign_key_violation, insufficient_balance,
  balance_limit_exceeded, currency_mismatch, daily_limit_exceeded, numeric_out_of_range,
  idempotency_conflict, invalid_session, record_not_found, Error,
}

pub record ApiError : Type 0 where
  pub status : ℕ
  pub code : String
  pub message : String

-- What a handler returns when it fails: an error of its own, one of the store, one of the token
-- package, or one of echo with the status that `echo.StatusCode` finds, 0 if it finds none.
pub data Failure : Type 0 where
  api : ApiError → Failure
  store : Error → Failure
  expired_token invalid_token : Failure
  echo : ℕ → Failure

abbrev pub new_api_error : ℕ → String → String → Failure
new_api_error status code message = api (record { status = status; code = code; message = message })

-- The catalog, one entry after the other.
abbrev pub catalog : Failure → Option ApiError
catalog (store record_not_found) =
    some (record { status = 404; code = "not_found"; message = "resource not found" })
catalog (store username_exists) =
    some (record { status = 409; code = "username_exists"; message = "username already exists" })
catalog (store email_exists) =
    some (record { status = 409; code = "email_exists"; message = "email already exists" })
catalog (store unique_violation) =
    some (record { status = 409; code = "already_exists"; message = "resource already exists" })
catalog (store foreign_key_violation) =
    some
      (record { status = 409; code = "related_not_found"; message = "related resource not found" })
catalog (store insufficient_balance) =
    some (record { status = 422; code = "insufficient_balance"; message = "insufficient balance" })
catalog (store balance_limit_exceeded) = some (record {
  status = 422;
  code = "destination_balance_limit_exceeded";
  message = "destination balance exceeds the supported limit";
})
catalog (store currency_mismatch) =
    some (record { status = 400; code = "currency_mismatch"; message = "currency mismatch" })
catalog (store daily_limit_exceeded) = some (record {
  status = 422;
  code = "daily_limit_exceeded";
  message = "daily transfer limit exceeded";
})
catalog (store numeric_out_of_range) =
    some (record { status = 422; code = "amount_too_large"; message = "amount too large" })
catalog (store idempotency_conflict) = some (record {
  status = 409;
  code = "idempotency_conflict";
  message = "idempotency key conflicts with an existing transfer";
})
catalog (store invalid_session) =
    some (record { status = 401; code = "invalid_session"; message = "invalid session" })
catalog expired_token =
    some (record { status = 401; code = "token_expired"; message = "token has expired" })
catalog invalid_token =
    some (record { status = 401; code = "token_invalid"; message = "token is invalid" })
catalog _ = none

abbrev pub internal_error : ApiError
internal_error = record { status = 500; code = "internal_error"; message = "internal server error" }

unfoldable pub lookup_error : Failure → ApiError
lookup_error e = elim (catalog e) [ some a ↦ a | none ↦ internal_error ]

-- The code for a bare status.
unfoldable pub status_code : ℕ → String
status_code status =
    if status == 400
    then "bad_request"
    else if status == 401
    then "unauthorized"
    else if status == 403
    then "forbidden"
    else if status == 404
    then "not_found"
    else if status == 405
    then "method_not_allowed"
    else if status == 409
    then "conflict"
    else if status == 413
    then "payload_too_large"
    else if status == 415
    then "unsupported_media_type"
    else if status == 429
    then "rate_limited"
    else "request_failed"

module _ (status_text : ℕ → String) where
  -- `http.StatusText` is the parameter.
  unfoldable pub status_error : ℕ → ApiError
  unfolding status_code
  status_error status = record {
    status = status;
    code = status_code status;
    message = status_text status;
  }

  -- The status that echo finds in an error.
  abbrev pub echo_status : Failure → ℕ
  echo_status (echo status) = status
  echo_status _ = 0

  -- What `errorHandler` writes when nothing was committed.
  unfoldable pub error_handler : Failure → ApiError
  unfolding lookup_error status_error
  error_handler (api e) = e
  error_handler e =
      if not (str_eq (lookup_error e).code "internal_error")
      then lookup_error e
      else if not (echo_status e == 0)
      then status_error (echo_status e)
      else lookup_error e
