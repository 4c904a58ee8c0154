-- ===== src/Api/Refusals.antt =====
-- internal/api/transfer.go: the ways in which `createTransfer` returns an error.
use simplebank.Token.{Payload}
use simplebank.Store.Transfer.Cases.{transfer_tx-Outcome, posts, replayed, failed, Outcome}
use simplebank.Errors.{Result}
use simplebank.Sqlc.Accounts.{get_account}
use simplebank.Store.Transfer.{transfer_tx, TransferTxResult, TransferTxParams}
use simplebank.Api.Errors.{Failure}
use simplebank.Sqlc.Tx.{Tx}
use simplebank.Prelude.{refl, false, true, ◌∙◌, Option, subst, ℕ, ◌≡◌, String, Bool}
use simplebank.Sqlc.Models.{Pg, Db}
use simplebank.Api.Transfers.{
  tx_params, TransferResponse, TransferRequest, check_accounts, check_request, valid_account,
  create_transfer_handler,
}
use simplebank.Config.{CurrencyLimit}
use simplebank.Api.Handler.{
  and_then, of_result, auth_payload, call, fails, read, reject_if, done, authorize_owner,
  classified_call, given, reply, Reply, Handler, ◌>>=◌,
}

-- A step that only reads, and one that leaves the database as it was when it fails.
ReadsOnly : {A : Type 0} → Handler A → Type 0
ReadsOnly m = (db : Db) → (m db).1 ≡ db

abbrev AfterFailure : {A : Type 0} → Reply A × Db → Db → Type 0
AfterFailure (done a, db') db = Unit
AfterFailure (fails e, db') db = db' ≡ db

FailsClean : {A : Type 0} → Handler A → Type 0
FailsClean m = (db : Db) → AfterFailure (m db) db

reads-FailsClean : {A : Type 0} (m : Handler A) → ReadsOnly m → FailsClean m
unfolding ReadsOnly FailsClean
reads-FailsClean {A} m r db = go (m db) (r db)
  where
    go : (x : Reply A × Db) → x.1 ≡ db → AfterFailure x db
    go (done a, db') same = tt
    go (fails e, db') same = same

-- After steps that only read, a step that fails clean still fails clean.
>>=-FailsClean :
    {A B : Type 0} (m : Handler A) (f : A → Handler B)
    → ReadsOnly m
    → ((a : A) → FailsClean (f a))
    → FailsClean (m >>= f)
unfolding ReadsOnly FailsClean ◌>>=◌
>>=-FailsClean {A} {B} m f r c db = go (m db) (r db)
  where
    go : (x : Reply A × Db) → x.1 ≡ db → AfterFailure (and_then x f) db
    go (done a, db') same = subst (λ d. AfterFailure (f a db') d) same (c a db')
    go (fails e, db') same = same

>>=-ReadsOnly :
    {A B : Type 0} (m : Handler A) (f : A → Handler B)
    → ReadsOnly m
    → ((a : A) → ReadsOnly (f a))
    → ReadsOnly (m >>= f)
unfolding ReadsOnly ◌>>=◌
>>=-ReadsOnly {A} {B} m f r c db = go (m db) (r db)
  where
    go : (x : Reply A × Db) → x.1 ≡ db → (and_then x f).1 ≡ db
    go (done a, db') same = c a db' ∙ same
    go (fails e, db') same = same

given-ReadsOnly : {A : Type 0} (r : Reply A) → ReadsOnly (given r)
unfolding ReadsOnly
given-ReadsOnly r db = refl

reject_if-ReadsOnly : (c : Bool) (e : Failure) → ReadsOnly (reject_if c e)
unfolding ReadsOnly
reject_if-ReadsOnly true e db = refl
reject_if-ReadsOnly false e db = refl

reply-ReadsOnly : {A : Type 0} (a : A) → ReadsOnly (reply a)
unfolding ReadsOnly
reply-ReadsOnly a db = refl

read-ReadsOnly : {A : Type 0} (m : Tx A) → ReadsOnly (classified_call (read m))
unfolding ReadsOnly
read-ReadsOnly m db = refl

valid_account-ReadsOnly : (id : ℕ) (currency : String) → ReadsOnly (valid_account id currency)
unfolding valid_account
valid_account-ReadsOnly id currency =
    >>=-ReadsOnly (classified_call (read (get_account id))) _ (read-ReadsOnly (get_account id))
      (λ a. >>=-ReadsOnly (reject_if _ _) _ (reject_if-ReadsOnly _ _) (λ _. reply-ReadsOnly a))

check_request-ReadsOnly :
    (limit : CurrencyLimit) (req : TransferRequest) → ReadsOnly (check_request limit req)
unfolding check_request
check_request-ReadsOnly limit req =
    >>=-ReadsOnly (reject_if _ _) _ (reject_if-ReadsOnly _ _) (λ _.
      >>=-ReadsOnly (reject_if _ _) _ (reject_if-ReadsOnly _ _) (λ _. reject_if-ReadsOnly _ _))

check_accounts-ReadsOnly :
    (req : TransferRequest) (token : Option Payload) → ReadsOnly (check_accounts req token)
unfolding check_accounts authorize_owner
check_accounts-ReadsOnly req token =
    >>=-ReadsOnly (valid_account req.from_account_id req.currency) _
      (valid_account-ReadsOnly req.from_account_id req.currency)
      (λ from.
        >>=-ReadsOnly (given (auth_payload token)) _ (given-ReadsOnly (auth_payload token)) (λ p.
          >>=-ReadsOnly (reject_if _ _) _ (reject_if-ReadsOnly _ _) (λ _.
            >>=-ReadsOnly (valid_account req.to_account_id req.currency) _
              (valid_account-ReadsOnly req.to_account_id req.currency) (λ _. reply-ReadsOnly tt))))

-- `TransferTx` fails clean, and nothing after it can fail.
made-FailsClean :
    (pg : Pg) (p : TransferTxParams) (f : TransferTxResult → TransferResponse)
    → FailsClean (call (transfer_tx pg p) >>= λ r. reply (f r))
unfolding FailsClean ◌>>=◌
made-FailsClean pg p f db = go (transfer_tx-Outcome pg p db)
  where
    go :
        {x : Result TransferTxResult} {db' : Db}
        → Outcome pg p db x db'
        → AfterFailure (and_then (of_result x, db') (λ r. reply (f r))) db
    go (failed e) = refl
    go (replayed r same) = tt
    go (posts r db' new x) = tt

create_transfer_handler-FailsClean :
    (limits : String → CurrencyLimit) (pg : Pg) (request : Reply TransferRequest)
    (token : Option Payload)
    → FailsClean (create_transfer_handler limits pg request token)
unfolding create_transfer_handler
create_transfer_handler-FailsClean limits pg request token =
    >>=-FailsClean (given request) _ (given-ReadsOnly request) (λ req.
      >>=-FailsClean (check_request (limits req.currency) req) _
        (check_request-ReadsOnly (limits req.currency) req)
        (λ _.
          >>=-FailsClean (check_accounts req token) _ (check_accounts-ReadsOnly req token)
            (λ _. made-FailsClean pg (tx_params (limits req.currency) req) _)))

-- A request for a transfer that is answered with any error, from the parsing of the request to
-- the store, has left the database as it was.
pub refused_transfer_changes_nothing :
    (limits : String → CurrencyLimit) (pg : Pg) (request : Reply TransferRequest)
    (token : Option Payload) (db : Db) {e : Failure} {db' : Db}
    → create_transfer_handler limits pg request token db ≡ (fails e, db')
    → db' ≡ db
unfolding FailsClean
refused_transfer_changes_nothing limits pg request token db h =
    subst (λ (x : Reply TransferResponse × Db). AfterFailure x db) h
      (create_transfer_handler-FailsClean limits pg request token db)
