-- ===== src/Api/Owners.antt =====
-- internal/api/transfer.go: the guards of `createTransfer`, with `validAccount` and `authorizeOwner`.
use simplebank.Token.{Payload}
use simplebank.Api.Steps.{
  shown, call-eq-done, reject_if-eq-done, given-done, given-eq-done, read-eq-done, >>=-eq-done,
}
use simplebank.Sqlc.Effects.{get_account-eq}
use simplebank.Store.Transfer.{transfer_tx, TransferTxResult}
use simplebank.Sqlc.Accounts.{get_account, account_id_is}
use simplebank.Currency.{max_safe_minor_units}
use simplebank.Store.Exec.{query}
use simplebank.Api.Errors.{new_api_error}
use simplebank.Errors.{ok}
use simplebank.Prelude.{
  subst, ◌==◌, sym, ◌&&◌, ap, true, none, str_eq, pos, not, some, ltb_ℤ, find?, ◌≤ℤ◌, ◌∙◌, Option,
  ℕ, String, arith, false, ◌≡◌,
}
use simplebank.Sqlc.Models.{Account, Pg, Db}
use simplebank.Api.Transfers.{
  tx_params, TransferResponse, check_accounts, TransferRequest, check_request, valid_account,
  create_transfer_handler,
}
use simplebank.Config.{CurrencyLimit}
use simplebank.Api.Handler.{
  reply, authorize_owner, auth_payload, read, reject_if, classified_call, call, given, Reply, done,
  ◌>>=◌,
}

settle :
    (id : ℕ) (currency : String) (db db1 db2 db' : Db) (b a : Account)
    → query (get_account id) db ≡ ok b
    → db1 ≡ db
    → not (str_eq b.currency currency) ≡ false
    → db2 ≡ db1
    → reply b db2 ≡ (done a, db')
    → (find? (account_id_is id) db.accounts ≡ some a)
      × (str_eq a.currency currency ≡ true)
      × (db' ≡ db)
settle id currency db db1 db2 db' b a found same1 right same2 h = (
  ground (arith, get_account-eq id db),
  ground arith,
  ap (λ (x : Reply Account × Db). x.1) (sym h) ∙ same2 ∙ same1,
)

-- An account of the request's currency that is stored under the id.
found_account :
    (id : ℕ) (currency : String) {db : Db} {a : Account} {db' : Db}
    → valid_account id currency db ≡ (done a, db')
    → (find? (account_id_is id) db.accounts ≡ some a)
      × (str_eq a.currency currency ≡ true)
      × (db' ≡ db)
unfolding valid_account
found_account id currency {db} {a} {db'} h =
    let (b, db1, e1, h1) = >>=-eq-done (classified_call (read (get_account id))) _ h in
    let (_, db2, e2, h2) =
      >>=-eq-done
        (reject_if (not (str_eq b.currency currency))
          (new_api_error 400 "currency_mismatch" "currency mismatch"))
        _ h1 in
    let (found, same1) = read-eq-done (get_account id) e1 in
    let (right, same2) = reject_if-eq-done _ _ e2 in
    settle id currency db db1 db2 db' b a found same1 right same2 h2

-- The guards on the request have passed.
pub record RequestAllowed (limit : CurrencyLimit) (req : TransferRequest) : Type 0 where
  pub safe : req.amount ≤ℤ max_safe_minor_units
  pub within_limit :
      (ltb_ℤ (pos 0) limit.max_per_transfer && ltb_ℤ limit.max_per_transfer req.amount) ≡ false
  pub distinct : (req.from_account_id == req.to_account_id) ≡ false

check_request-RequestAllowed :
    (limit : CurrencyLimit) (req : TransferRequest) {db db' : Db}
    → check_request limit req db ≡ (done tt, db')
    → RequestAllowed limit req × (db' ≡ db)
unfolding check_request ◌>>=◌
check_request-RequestAllowed limit req h = ground arith

-- The caller owns the source account, and both accounts are of the request's currency.
pub record CallerOwns (req : TransferRequest) (token : Option Payload) (db : Db) : Type 0 where
  pub payload : Payload
  pub signed_in : token ≡ some payload
  pub from : Account
  pub to : Account
  pub from_found : find? (account_id_is req.from_account_id) db.accounts ≡ some from
  pub to_found : find? (account_id_is req.to_account_id) db.accounts ≡ some to
  pub owner : str_eq payload.username from.owner ≡ true
  pub from_currency : str_eq from.currency req.currency ≡ true
  pub to_currency : str_eq to.currency req.currency ≡ true

auth_payload-eq-done :
    (token : Option Payload) {p : Payload} → auth_payload token ≡ done p → token ≡ some p
unfolding auth_payload
auth_payload-eq-done none h = absurd (cc h)
auth_payload-eq-done (some p) h = cc h

check_accounts-CallerOwns :
    (req : TransferRequest) (token : Option Payload) {db db' : Db}
    → check_accounts req token db ≡ (done tt, db')
    → CallerOwns req token db × (db' ≡ db)
unfolding check_accounts authorize_owner
check_accounts-CallerOwns req token {db} {db'} h =
    let (from, db1, e1, h1) = >>=-eq-done (valid_account req.from_account_id req.currency) _ h in
    let (p, db2, e2, h2) = >>=-eq-done (given (auth_payload token)) _ h1 in
    let (_, db3, e3, h3) = >>=-eq-done (authorize_owner p from.owner) _ h2 in
    let (to, db4, e4, h4) = >>=-eq-done (valid_account req.to_account_id req.currency) _ h3 in
    let f = found_account req.from_account_id req.currency e1 in
    let g = given-eq-done (auth_payload token) e2 in
    let o = reject_if-eq-done (not (str_eq p.username from.owner)) _ e3 in
    let t = found_account req.to_account_id req.currency e4 in
    let still : db3 ≡ db = o.1 ∙ g.1 ∙ f.2 in
    (
      record {
        payload = p;
        signed_in = auth_payload-eq-done token g.0;
        from = from;
        to = to;
        from_found = f.0;
        to_found =
            ap (λ (d : Db). find? (account_id_is req.to_account_id) d.accounts) (sym still) ∙ t.0;
        owner = ground (arith, o.0);
        from_currency = f.1;
        to_currency = t.1;
      },
      ap (λ (x : Reply (Unit {0}) × Db). x.1) (sym h4) ∙ t.2 ∙ still,
    )

-- A transfer that the API reports as made was asked for by a signed-in user who owns the source
-- account, passed the limits on one transfer, goes to another account of the same currency, and
-- was made by `TransferTx` for exactly the request; the reply shows the transfer and the source.
pub create_transfer_handler-CallerOwns :
    (limits : String → CurrencyLimit) (pg : Pg) (req : TransferRequest) (token : Option Payload)
    (db : Db) {resp : TransferResponse} {db' : Db}
    → create_transfer_handler limits pg (done req) token db ≡ (done resp, db')
    → RequestAllowed (limits req.currency) req
      × CallerOwns req token db
      × ((r : TransferTxResult) × (transfer_tx pg (tx_params (limits req.currency) req) db
            ≡ (ok r, db'))
          × (resp.transfer ≡ r.transfer)
          × (resp.from_account ≡ r.from_account))
unfolding create_transfer_handler
create_transfer_handler-CallerOwns limits pg req token db {resp} {db'} h =
    let (_, db1, e1, h1) =
      >>=-eq-done (check_request (limits req.currency) req) _ (sym (given-done req _ db) ∙ h) in
    let (_, db2, e2, h2) = >>=-eq-done (check_accounts req token) _ h1 in
    let (r, db3, e3, h3) =
      >>=-eq-done (call (transfer_tx pg (tx_params (limits req.currency) req))) _ h2 in
    let (allowed, same1) = check_request-RequestAllowed (limits req.currency) req e1 in
    let (owns, same2) = check_accounts-CallerOwns req token e2 in
    let made = call-eq-done (transfer_tx pg (tx_params (limits req.currency) req)) e3 in
    let p = tx_params (limits req.currency) req in
    (
      allowed,
      subst (CallerOwns req token) same1 owns,
      (
        r,
        ap (transfer_tx pg p) (sym (same2 ∙ same1))
            ∙ made
            ∙ ap (λ (x : Reply TransferResponse × Db). (ok r, x.1)) h3,
        ap (λ (x : TransferResponse). x.transfer) (shown _ resp h3),
        ap (λ (x : TransferResponse). x.from_account) (shown _ resp h3),
      ),
    )
