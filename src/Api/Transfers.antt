-- ===== src/Api/Transfers.antt =====
-- internal/api/transfer.go: making a transfer, and the pages of an account's transfers.
use simplebank.Token.{Payload}
use simplebank.Config.{CurrencyLimit}
use simplebank.Sqlc.Transfers.{list_transfers_by_account}
use simplebank.Sqlc.Accounts.{get_account}
use simplebank.Api.Errors.{new_api_error}
use simplebank.Currency.{max_safe_minor_units}
use simplebank.Sqlc.Models.{Pg, Account, Transfer}
use simplebank.Prelude.{
  ◌==◌, str_eq, ◌&&◌, [], not, pos, if◌then◌else◌, Option, List, ltb_ℤ, String, ℤ, ℕ,
}
use simplebank.Api.Handler.{
  page_number, page_offset, int32, page_size, parsed, call, reply, given, max_int32, read, Reply,
  classified_call, authorize_owner, auth_payload, reject_if, Handler, ◌>>=◌, ◌>>◌,
}
use simplebank.Store.Transfer.{TransferTxParams, transfer_tx}

-- The bound and validated request; its ids are those that `uuid.Parse` makes of its texts.
pub record TransferRequest : Type 0 where
  pub from_account_id : ℕ
  pub to_account_id : ℕ
  pub amount : ℤ
  pub currency : String
  pub idempotency_key : ℕ

pub record TransferResponse : Type 0 where
  pub transfer : Transfer
  pub from_account : Account

unfoldable pub valid_account : ℕ → String → Handler Account
valid_account id currency = do
  account ← classified_call (read (get_account id))
  reject_if (not (str_eq account.currency currency))
      (new_api_error 400 "currency_mismatch" "currency mismatch")
  reply account

abbrev pub tx_params : CurrencyLimit → TransferRequest → TransferTxParams
tx_params limit req = record {
  from_account_id = req.from_account_id;
  to_account_id = req.to_account_id;
  amount = req.amount;
  currency = req.currency;
  idempotency_key = req.idempotency_key;
  daily_limit = limit.daily;
}

-- The guards on the request alone.
unfoldable pub check_request : CurrencyLimit → TransferRequest → Handler (Unit {0})
check_request limit req = do
  reject_if (ltb_ℤ max_safe_minor_units req.amount)
      (new_api_error 422 "amount_too_large" "amount exceeds the supported limit")
  reject_if (ltb_ℤ (pos 0) limit.max_per_transfer && ltb_ℤ limit.max_per_transfer req.amount)
      (new_api_error 422 "transfer_limit_exceeded" "amount exceeds the per-transfer limit")
  reject_if (req.from_account_id == req.to_account_id)
      (new_api_error 400 "same_account_transfer" "cannot transfer to the same account")

-- The guards on the accounts, the caller's ownership of the source among them.
unfoldable pub check_accounts : TransferRequest → Option Payload → Handler (Unit {0})
unfolding valid_account auth_payload authorize_owner
check_accounts req token = do
  from_account ← valid_account req.from_account_id req.currency
  payload ← given (auth_payload token)
  authorize_owner payload from_account.owner
  valid_account req.to_account_id req.currency
  reply tt

-- `limits` is `config.TransferLimits`, which answers zeros for a currency that it has not.
unfoldable pub create_transfer_handler :
    (String → CurrencyLimit)
    → Pg
    → Reply TransferRequest
    → Option Payload
    → Handler TransferResponse
unfolding check_request check_accounts
create_transfer_handler limits pg request token = do
  req ← given request
  check_request (limits req.currency) req
  check_accounts req token
  result ← call (transfer_tx pg (tx_params (limits req.currency) req))
  reply (record { transfer = result.transfer; from_account = result.from_account })

-- The rest of `listTransfers` once the caller is known to own the account.
unfoldable pub list_transfers_window : ℕ → ℤ → ℤ → Handler (List Transfer)
list_transfers_window id size offset =
    if ltb_ℤ max_int32 offset
    then reply []
    else classified_call (read (list_transfers_by_account id (int32 size) (int32 offset)))

unfoldable pub list_transfers_handler :
    Option ℕ → Option ℤ → Option ℤ → Option Payload → Handler (List Transfer)
unfolding list_transfers_window auth_payload authorize_owner
list_transfers_handler param page_param size_param token = do
  id ← given (parsed param (new_api_error 400 "invalid_account_id" "invalid account id"))
  page ← given (parsed page_param (new_api_error 400 "invalid_page" "invalid page"))
  size ← given (parsed size_param (new_api_error 400 "invalid_size" "invalid size"))
  account ← classified_call (read (get_account id))
  payload ← given (auth_payload token)
  authorize_owner payload account.owner
  let n = page_size (pos 10) size
  list_transfers_window id n (page_offset (page_number page) n)
