-- ===== src/Api/Accounts.antt =====
-- internal/api/account.go: opening an account, reading one, and the pages of one's accounts.
-- `bindValidate`, `uuid.Parse` and `echo.QueryParamOr` are third-party parsing: their answers are
-- arguments.
use simplebank.Token.{Payload}
use simplebank.Sqlc.Accounts.{list_accounts, get_account}
use simplebank.Currency.{max_safe_minor_units, is_supported}
use simplebank.Api.Errors.{new_api_error}
use simplebank.Sqlc.Models.{Account, Pg}
use simplebank.Prelude.{pos, [], not, ltb_ℤ, if◌then◌else◌, List, ℕ, ℤ, Option, String}
use simplebank.Api.Handler.{
  page_number, int32, page_offset, read, page_size, reply, classified_call, max_int32, parsed,
  reject_if, given, Reply, authorize_owner, auth_payload, Handler, ◌>>=◌, ◌>>◌,
}
use simplebank.Store.Account.{create_account_tx}

pub record CreateAccountRequest : Type 0 where
  pub currency : String
  pub balance : ℤ

-- `limits` is `config.AccountOpeningLimits`, which answers 0 for a currency that it has not.
unfoldable pub create_account_handler :
    (String → ℤ) → Pg → Reply CreateAccountRequest → Option Payload → Handler Account
unfolding auth_payload
create_account_handler limits pg request token = do
  req ← given request
  reject_if (not (is_supported req.currency))
      (new_api_error 400 "unsupported_currency" "unsupported currency")
  reject_if (ltb_ℤ max_safe_minor_units req.balance) (
      new_api_error 422 "opening_balance_limit_exceeded"
        "opening balance exceeds the supported limit")
  reject_if (ltb_ℤ (limits req.currency) req.balance) (
      new_api_error 422 "opening_balance_limit_exceeded"
        "opening balance exceeds the configured limit")
  payload ← given (auth_payload token)
  classified_call (
      create_account_tx pg
        (record { owner = payload.username; balance = req.balance; currency = req.currency }))

unfoldable pub get_account_handler : Option ℕ → Option Payload → Handler Account
unfolding auth_payload authorize_owner
get_account_handler param token = do
  id ← given (parsed param (new_api_error 400 "invalid_account_id" "invalid account id"))
  account ← classified_call (read (get_account id))
  payload ← given (auth_payload token)
  authorize_owner payload account.owner
  reply account

-- The rest of `listAccounts` once the window is known.
unfoldable pub list_accounts_window : ℤ → ℤ → Option Payload → Handler (List Account)
unfolding auth_payload
list_accounts_window size offset token = if ltb_ℤ max_int32 offset then reply [] else (do
  payload ← given (auth_payload token)
  classified_call (read (list_accounts payload.username (int32 size) (int32 offset))))

unfoldable pub list_accounts_handler : Option ℤ → Option ℤ → Option Payload → Handler (List Account)
unfolding list_accounts_window
list_accounts_handler page_param size_param token = do
  page ← given (parsed page_param (new_api_error 400 "invalid_page" "invalid page"))
  size ← given (parsed size_param (new_api_error 400 "invalid_size" "invalid size"))
  let n = page_size (pos 5) size
  list_accounts_window n (page_offset (page_number page) n) token
