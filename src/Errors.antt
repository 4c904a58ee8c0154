-- ===== src/Errors.antt =====
-- internal/db/errors.go: the errors of the store, and how those of the driver are classified.
-- An error is the driver's `pgx.ErrNoRows`, a `pgconn.PgError` with its code and its constraint,
-- a sentinel of the package, or `foreign`, one that the package only passes on.
use simplebank.Prelude.{
  ◌≡◌, refl, String, Bool, true, false, Option, none, some, arith, str_eq, if◌then◌else◌,
}

pub data Error : Type 0 where
  no_rows : Error
  pg_error : String → String → Error
  record_not_found username_exists email_exists unique_violation foreign_key_violation : Error
  insufficient_balance balance_limit_exceeded currency_mismatch numeric_out_of_range : Error
  daily_limit_exceeded idempotency_conflict invalid_session session_id_mismatch : Error
  foreign : String → Error

pub data Result {ℓ} (A : Type ℓ) : Type ℓ where
  ok : A → Result A
  err : Error → Result A

-- A check of a statement: it answers with nothing, or with the error.
abbrev pub refuse_if : Bool → Error → Result (Unit {0})
refuse_if true e = err e
refuse_if false e = ok tt

-- A value that was found, or the error.
abbrev pub or_err {ℓ} : {A : Type ℓ} → Option A → Error → Result A
or_err none e = err e
or_err (some a) e = ok a

-- What follows a value: the first error ends the chain.
infixl 5 ◌>>=◌ ◌>>◌
abbrev pub ◌>>=◌ {ℓ κ} : {A : Type ℓ} {R : Type κ} → Result A → (A → Result R) → Result R
first >>= rest = elim first [ err e ↦ err e | ok value ↦ rest value ]

-- What follows a check.
abbrev pub ◌>>◌ {ℓ} : {R : Type ℓ} → Result (Unit {0}) → Result R → Result R
check >> rest = elim check [ err e ↦ err e | ok _ ↦ rest ]

-- The switch on `pgErr.ConstraintName` under code 23505.
classify_unique : String → Error
classify_unique constraint =
    if str_eq constraint "users_username_key"
    then username_exists
    else if str_eq constraint "users_email_key"
    then email_exists
    else unique_violation

-- The switch on `pgErr.Code`. A check that has no case of its own falls out of the switch.
classify_pg : String → String → Error
unfolding classify_unique
classify_pg code constraint =
    if str_eq code "23505"
    then classify_unique constraint
    else if str_eq code "23503"
    then foreign_key_violation
    else if str_eq code "23514"
    then if str_eq constraint "accounts_balance_javascript_safe"
      then balance_limit_exceeded
      else pg_error code constraint
    else if str_eq code "22003"
    then numeric_out_of_range
    else pg_error code constraint

unfoldable pub classify_error : Error → Error
unfolding classify_pg
classify_error no_rows = record_not_found
classify_error (pg_error code constraint) = classify_pg code constraint
classify_error e = e

-- `if err != nil { return ClassifyError(err) }`
abbrev pub classified {ℓ} : {A : Type ℓ} → Result A → Result A
classified (ok a) = ok a
classified (err e) = err (classify_error e)

-- errors.Is(err, ErrRecordNotFound)
abbrev pub is_record_not_found : Error → Bool
is_record_not_found record_not_found = true
is_record_not_found _ = false

-- errors.Is(err, ErrUniqueViolation)
abbrev pub is_unique_violation : Error → Bool
is_unique_violation unique_violation = true
is_unique_violation _ = false

-- Classifying an error that was classified already changes nothing.
pub classify_error_idem : (e : Error) → classify_error (classify_error e) ≡ classify_error e
unfolding classify_error
classify_error_idem no_rows = refl
classify_error_idem (pg_error code constraint) = ground arith
classify_error_idem _ = refl
