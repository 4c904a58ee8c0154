-- ===== src/Api/Limits.antt =====
-- internal/api/transfer.go with internal/config/config.go: the limits of a currency.
use simplebank.Token.{Payload}
use simplebank.Api.Owners.{create_transfer_handler-CallerOwns}
use simplebank.Ledger.DailyLimit.{transfer_tx-within_day, sent_since}
use simplebank.Store.Transfer.Cases.{existing}
use simplebank.Api.Handler.{done}
use simplebank.Sqlc.Models.{Db, Pg}
use simplebank.Prelude.{arith, ◌≤ℤ◌, pos, none, ◌≡◌, Option, String, List, Bool}
use simplebank.Api.Transfers.{tx_params, TransferResponse, TransferRequest, create_transfer_handler}
use simplebank.Config.{
  accepted_limits_in_range, accepted, parse_transfer_limits, CurrencyLimit, Json, lookup, no_limit,
}

-- Under limits that the configuration accepted, a transfer that the API reports as made under a
-- new key is within the limit on one transfer, and with it the source account has sent at most
-- the currency's daily limit in the 24 hours before the server's clock, where these are not 0.
pub api_enforces_limits :
    (blank : Bool) (json : Json CurrencyLimit) (table : List (String × CurrencyLimit)) (pg : Pg)
    (req : TransferRequest) (token : Option Payload) (db : Db) {resp : TransferResponse} {db' : Db}
    → parse_transfer_limits blank json ≡ accepted table
    → existing (tx_params (lookup no_limit table req.currency) req) db ≡ none
    → create_transfer_handler (lookup no_limit table) pg (done req) token db ≡ (done resp, db')
    → pos 1 ≤ℤ (lookup no_limit table req.currency).max_per_transfer
    → pos 1 ≤ℤ (lookup no_limit table req.currency).daily
    → (req.amount ≤ℤ (lookup no_limit table req.currency).max_per_transfer)
      × (sent_since req.from_account_id pg.clock db'.transfers
          ≤ℤ (lookup no_limit table req.currency).daily)
api_enforces_limits blank json table pg req token db parsed_ok new made one daily =
    let limit = lookup no_limit table req.currency in
    let in_range = accepted_limits_in_range blank json table req.currency parsed_ok in
    let (allowed, owns, (r, moved, _, _)) =
      create_transfer_handler-CallerOwns (lookup no_limit table) pg req token db made in
    (
      ground (arith, allowed.within_limit, one),
      transfer_tx-within_day pg (tx_params limit req) db daily in_range.daily_safe new moved,
    )
