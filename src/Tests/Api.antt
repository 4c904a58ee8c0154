-- ===== src/Tests/Api.antt =====
-- The handlers on the small bank.
use simplebank.Token.{access, new_expected_payload, Payload}
use simplebank.Currency.{is_supported}
use simplebank.Api.Limits.{api_enforces_limits}
use simplebank.Api.Errors.{new_api_error}
use simplebank.Ledger.DailyLimit.{sent_since}
use simplebank.Api.Refusals.{refused_transfer_changes_nothing}
use simplebank.Sqlc.Notifications.{publish_notification, create_notification}
use simplebank.Sqlc.Entries.{create_entry}
use simplebank.Store.Exec.{exec_tx}
use simplebank.Sqlc.Transfers.{
  create_transfer, sum_outgoing_transfers_since, get_transfer_by_source_and_idempotency_key,
}
use simplebank.Api.Handler.{fails, ◌>>=◌}
use simplebank.Prelude.{false, [], ◌∷◌, ◌≤ℤ◌, List, neg64, sub64, ◌+ℤ◌}
use simplebank.Api.Paging.{list_accounts_page, accounts_of}
use simplebank.Api.Accounts.{list_accounts_handler}
use simplebank.Errors.{classify_error, ok}
use simplebank.Store.Transfer.{transfer_tx, TransferTxResult}
use simplebank.Sqlc.Accounts.{add_account_balance, get_account_for_update, get_account, add_balance}
use simplebank.Store.Transfer.Posted.{new_transfer}
use simplebank.Api.Owners.{create_transfer_handler-CallerOwns, CallerOwns, RequestAllowed}
use simplebank.Api.Transfers.{create_transfer_handler, TransferResponse, TransferRequest}
use simplebank.Config.{
  accepted, object, check_transfer_limit, first_error, parse_limits, no_limit,
  parse_transfer_limits, lookup, CurrencyLimit,
}
use simplebank.Api.Handler.{page_size, done, page_number}
use simplebank.Tests.{alice_account, bank_paid, payment, pg, bank}
use simplebank.Prelude.{arith, drop, take, ◌≤◌, negsuc, suc, some, ◌≡◌, pos, String, ℕ, refl, ◌*◌}

abbrev alice : Payload
alice = record (new_expected_payload access) { username = "alice" }

list_accounts_page_example :
    (k : ℕ) × (n : ℕ) × (page_number (pos 2) ≡ pos (suc k))
    × (page_size (pos 5) (pos 1_000) ≡ pos n)
    × (1 ≤ n)
    × (n ≤ 100)
    × (list_accounts_handler (some (pos 2)) (some (pos 1_000)) (some alice) bank
        ≡ (done (take n (drop (k * n) (accounts_of "alice" bank))), bank))
list_accounts_page_example =
    list_accounts_page (pos 2) (pos 1_000) alice bank
      (record { least = omega arith; greatest = omega arith }) (omega arith)

abbrev request : TransferRequest
request = record {
  from_account_id = 10;
  to_account_id = 20;
  amount = pos 30;
  currency = "USD";
  idempotency_key = 7;
}

abbrev dollars : List (String × CurrencyLimit)
dollars = ("USD", record { max_per_transfer = pos 50; daily = pos 100 }) ∷ []

abbrev hundred_a_day : String → CurrencyLimit
hundred_a_day = lookup no_limit dollars

abbrev response : TransferResponse
response = record {
  transfer = new_transfer (pg 1_000) payment;
  from_account = add_balance (negsuc 29) alice_account;
}

payment_by_api :
    create_transfer_handler hundred_a_day (pg 1_000) (done request) (some alice) bank
    ≡ (done response, bank_paid)
unfolding create_transfer_handler lookup ◌>>=◌ get_account transfer_tx
    get_transfer_by_source_and_idempotency_key classify_error exec_tx get_account_for_update sub64
    sum_outgoing_transfers_since create_transfer create_entry neg64 add_account_balance ◌+ℤ◌
    create_notification publish_notification
payment_by_api = refl

create_transfer_handler-CallerOwns_example :
    RequestAllowed (hundred_a_day "USD") request
    × CallerOwns request (some alice) bank
    × ((r : TransferTxResult) × (transfer_tx (pg 1_000) payment bank ≡ (ok r, bank_paid))
        × (response.transfer ≡ r.transfer)
        × (response.from_account ≡ r.from_account))
unfolding lookup
create_transfer_handler-CallerOwns_example =
    create_transfer_handler-CallerOwns hundred_a_day (pg 1_000) request (some alice) bank
      payment_by_api

dollars_accepted : parse_transfer_limits false (object dollars) ≡ accepted dollars
unfolding parse_transfer_limits parse_limits first_error check_transfer_limit is_supported
dollars_accepted = refl

dollars_limit : hundred_a_day "USD" ≡ record { max_per_transfer = pos 50; daily = pos 100 }
unfolding lookup
dollars_limit = refl

api_enforces_limits_example :
    (request.amount ≤ℤ (hundred_a_day "USD").max_per_transfer)
    × (sent_since 10 1_000 bank_paid.transfers ≤ℤ (hundred_a_day "USD").daily)
api_enforces_limits_example =
    api_enforces_limits false (object dollars) dollars (pg 1_000) request (some alice) bank
      dollars_accepted refl payment_by_api (rw dollars_limit (omega arith))
      (rw dollars_limit (omega arith))

-- Bob asks for a transfer out of Alice's account.
abbrev bob : Payload
bob = record (new_expected_payload access) { username = "bob" }

refused_to_bob :
    create_transfer_handler hundred_a_day (pg 1_000) (done request) (some bob) bank
    ≡ (fails (new_api_error 403 "forbidden" "you do not have access to this resource"), bank)
unfolding create_transfer_handler ◌>>=◌ lookup get_account
refused_to_bob = refl

refused_transfer_changes_nothing_example : bank ≡ bank
refused_transfer_changes_nothing_example =
    refused_transfer_changes_nothing hundred_a_day (pg 1_000) (done request) (some bob) bank
      refused_to_bob
