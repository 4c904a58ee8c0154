-- ===== src/Config.antt =====
-- internal/config/config.go: the limits on transfers and on opening balances.
-- A JSON object is decoded by encoding/json, whose answer is an argument: nothing on malformed
-- text, a null, or the object's pairs in the order in which Go's `range` happens to visit them.
pub mod Settings
pub mod Accepted
use simplebank.Prelude.{
  inr, inl, Bool-cases, Option-cases, refl, false, ltb_ℤ, true, some, arith, str_eq, not, subst, [],
  none, if◌then◌else◌, ◌≤ℤ◌, ◌≡◌, ◌∷◌, Option, pos, Bool, String, ℤ, List,
}
use simplebank.Currency.{max_safe_minor_units, is_supported}

pub data Json (A : Type 0) : Type 0 where
  malformed null : Json A
  object : List (String × A) → Json A

-- The limits of a currency; 0 disables one.
pub record CurrencyLimit : Type 0 where
  pub max_per_transfer : ℤ
  pub daily : ℤ

-- The reasons for which `Validate` refuses the limits.
pub data LimitError : Type 0 where
  decoding not_an_object : LimitError
  unsupported max_negative daily_negative max_too_large daily_too_large : String → LimitError
  cap_negative cap_too_large : String → LimitError

pub data Limits (A : Type 0) : Type 0 where
  accepted : List (String × A) → Limits A
  rejected : LimitError → Limits A

-- The checks on one pair, in the order of the code.
unfoldable pub check_transfer_limit : String → CurrencyLimit → Option LimitError
check_transfer_limit code limit =
    if not (is_supported code)
    then some (unsupported code)
    else if ltb_ℤ limit.max_per_transfer (pos 0)
    then some (max_negative code)
    else if ltb_ℤ limit.daily (pos 0)
    then some (daily_negative code)
    else if ltb_ℤ max_safe_minor_units limit.max_per_transfer
    then some (max_too_large code)
    else if ltb_ℤ max_safe_minor_units limit.daily
    then some (daily_too_large code)
    else none

unfoldable pub check_opening_limit : String → ℤ → Option LimitError
check_opening_limit code cap =
    if not (is_supported code)
    then some (unsupported code)
    else if ltb_ℤ cap (pos 0)
    then some (cap_negative code)
    else if ltb_ℤ max_safe_minor_units cap
    then some (cap_too_large code)
    else none

-- The loop over the pairs returns at the first error.
unfoldable pub first_error :
    {A : Type 0} → (String → A → Option LimitError) → List (String × A) → Option LimitError
first_error check [] = none
first_error check (pair ∷ pairs) =
    let rest = first_error check pairs in
    elim (check pair.0 pair.1) [ some e ↦ some e | none ↦ rest ]

-- What both parsers do; `blank` says that the text is empty once trimmed.
unfoldable pub parse_limits :
    {A : Type 0} → (String → A → Option LimitError) → Bool → Json A → Limits A
unfolding first_error
parse_limits check true json = accepted []
parse_limits check false malformed = rejected decoding
parse_limits check false null = rejected not_an_object
parse_limits check false (object pairs) = elim (first_error check pairs) [
  | some e ↦ rejected e
  | none ↦ accepted pairs
]

unfoldable pub parse_transfer_limits : Bool → Json CurrencyLimit → Limits CurrencyLimit
unfolding parse_limits check_transfer_limit
parse_transfer_limits = parse_limits check_transfer_limit

unfoldable pub parse_account_opening_limits : Bool → Json ℤ → Limits ℤ
unfolding parse_limits check_opening_limit
parse_account_opening_limits = parse_limits check_opening_limit

-- A lookup in a map: the zero value on a missing key.
unfoldable pub lookup : {A : Type 0} → A → List (String × A) → String → A
lookup zero_value [] code = zero_value
lookup zero_value (pair ∷ pairs) code =
    let rest = lookup zero_value pairs code in if str_eq pair.0 code then pair.1 else rest

abbrev pub no_limit : CurrencyLimit
no_limit = record { max_per_transfer = pos 0; daily = pos 0 }

pub record LimitInRange (limit : CurrencyLimit) : Type 0 where
  pub max_nonnegative : pos 0 ≤ℤ limit.max_per_transfer
  pub max_safe : limit.max_per_transfer ≤ℤ max_safe_minor_units
  pub daily_nonnegative : pos 0 ≤ℤ limit.daily
  pub daily_safe : limit.daily ≤ℤ max_safe_minor_units

checked-LimitInRange :
    (code : String) (limit : CurrencyLimit)
    → check_transfer_limit code limit ≡ none
    → LimitInRange limit
unfolding check_transfer_limit
checked-LimitInRange code limit h = ground arith

first_error-none :
    (pair : String × CurrencyLimit) (pairs : List (String × CurrencyLimit))
    → first_error check_transfer_limit (pair ∷ pairs) ≡ none
    → (check_transfer_limit pair.0 pair.1 ≡ none) × (first_error check_transfer_limit pairs ≡ none)
unfolding first_error
first_error-none pair pairs h = elim (Option-cases (check_transfer_limit pair.0 pair.1)) [
  | inl first ↦ (first, ground arith)
  | inr (e, bad) ↦ absurd (ground arith)
]

lookup-LimitInRange :
    (pairs : List (String × CurrencyLimit)) (code : String)
    → first_error check_transfer_limit pairs ≡ none
    → LimitInRange (lookup no_limit pairs code)
unfolding first_error lookup
lookup-LimitInRange [] code h = record {
  max_nonnegative = omega arith;
  max_safe = omega arith;
  daily_nonnegative = omega arith;
  daily_safe = omega arith;
}
lookup-LimitInRange (pair ∷ pairs) code h =
    let (first, rest) = first_error-none pair pairs h in
    elim (Bool-cases (str_eq pair.0 code)) [
      | inl hit ↦ rw hit (checked-LimitInRange pair.0 pair.1 first)
      | inr miss ↦ rw miss (lookup-LimitInRange pairs code rest)
    ]

-- Limits that the configuration accepts lie, for every currency, between 0 and 2^53 - 1.
pub accepted_limits_in_range :
    (blank : Bool) (json : Json CurrencyLimit) (table : List (String × CurrencyLimit))
    (code : String)
    → parse_transfer_limits blank json ≡ accepted table
    → LimitInRange (lookup no_limit table code)
unfolding parse_transfer_limits parse_limits
accepted_limits_in_range true json table code h =
    subst (λ t. LimitInRange (lookup no_limit t code)) (cc h) (lookup-LimitInRange [] code refl)
accepted_limits_in_range false malformed table code h = absurd (cc h)
accepted_limits_in_range false null table code h = absurd (cc h)
accepted_limits_in_range false (object pairs) table code h =
    elim (Option-cases (first_error check_transfer_limit pairs)) [
      | inl fine ↦
          let same : pairs ≡ table = ground arith in
          subst (λ t. LimitInRange (lookup no_limit t code)) same
            (lookup-LimitInRange pairs code fine)
      | inr (e, bad) ↦ absurd (ground arith)
    ]
