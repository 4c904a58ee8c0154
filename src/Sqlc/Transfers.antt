-- ===== src/Sqlc/Transfers.antt =====
-- internal/db/sqlc/transfers.sql.go, with the constraints of the table transfers.
use simplebank.Currency.{max_safe_minor_units}
use simplebank.Errors.{ok, no_rows, pg_error, refuse_if, or_err, ◌>>=◌, ◌>>◌}
use simplebank.Prelude.{
  ℕ, ◌+◌, ℤ, pos, ◌+ℤ◌, ltb_ℤ, leb_ℤ, ltb, leb, Bool, not, ◌&&◌, ◌||◌, List, [], ◌∷◌, ◌==◌,
  if◌then◌else◌, find?, exists, select, order_by, take, drop,
}
use simplebank.Sqlc.Accounts.{account_id_is}
use simplebank.Sqlc.Models.{Transfer}
use simplebank.Sqlc.Tx.{Tx}

pub record CreateTransferParams : Type 0 where
  pub from_account_id : ℕ
  pub to_account_id : ℕ
  pub amount : ℤ
  pub idempotency_key : ℕ

abbrev pub transfer_id_is : ℕ → Transfer → Bool
transfer_id_is id t = t.id == id

abbrev pub source_key_is : ℕ → ℕ → Transfer → Bool
source_key_is from key t = t.from_account_id == from && t.idempotency_key == key

abbrev pub transfer_row : ℕ → ℕ → CreateTransferParams → Transfer
transfer_row id now p = record {
  id = id;
  from_account_id = p.from_account_id;
  to_account_id = p.to_account_id;
  amount = p.amount;
  created_at = now;
  idempotency_key = p.idempotency_key;
}

-- INSERT INTO transfers: the checks on the amount, the unique keys, then the foreign keys.
unfoldable pub create_transfer : ℕ → ℕ → CreateTransferParams → Tx Transfer
create_transfer id now p db = do
  refuse_if (leb_ℤ p.amount (pos 0)) (pg_error "23514" "transfers_amount_check")
  refuse_if (ltb_ℤ max_safe_minor_units p.amount)
      (pg_error "23514" "transfers_amount_javascript_safe")
  refuse_if (exists (transfer_id_is id) db.transfers) (pg_error "23505" "transfers_pkey")
  refuse_if (exists (source_key_is p.from_account_id p.idempotency_key) db.transfers)
      (pg_error "23505" "transfers_from_account_id_idempotency_key_key")
  refuse_if (not (exists (account_id_is p.from_account_id) db.accounts))
      (pg_error "23503" "transfers_from_account_id_fkey")
  refuse_if (not (exists (account_id_is p.to_account_id) db.accounts))
      (pg_error "23503" "transfers_to_account_id_fkey")
  ok (transfer_row id now p, record db { transfers = transfer_row id now p ∷ db.transfers })

unfoldable pub get_transfer_by_source_and_idempotency_key : ℕ → ℕ → Tx Transfer
get_transfer_by_source_and_idempotency_key from key db = do
  row ← or_err (find? (source_key_is from key) db.transfers) no_rows
  ok (row, db)

-- ORDER BY created_at DESC, id DESC LIMIT $3 OFFSET $2
abbrev pub newer_transfer : Transfer → Transfer → Bool
newer_transfer a b =
    ltb b.created_at a.created_at || (a.created_at == b.created_at && ltb b.id a.id)

unfoldable pub list_transfers_by_account : ℕ → ℕ → ℕ → Tx (List Transfer)
list_transfers_by_account account_id limit offset db = ok (
  take limit (
      drop offset (
        order_by newer_transfer (
          select (λ t. t.from_account_id == account_id || t.to_account_id == account_id)
            db.transfers))),
  db,
)

-- interval '24 hours', in microseconds
abbrev pub day : ℕ
day = 86_400_000_000

abbrev pub outgoing_since : ℕ → ℕ → Transfer → Bool
outgoing_since from clock t = t.from_account_id == from && leb clock (t.created_at + day)

abbrev pub sum_amounts : List Transfer → ℤ
sum_amounts [] = pos 0
sum_amounts (t ∷ ts) = t.amount +ℤ sum_amounts ts

abbrev pub least : ℤ → ℤ → ℤ
least a b = if leb_ℤ a b then a else b

-- SELECT LEAST(COALESCE(SUM(amount), 0), 9007199254740991)
unfoldable pub sum_outgoing_transfers_since : ℕ → ℕ → Tx ℤ
sum_outgoing_transfers_since clock from db =
    ok (
      least (sum_amounts (select (outgoing_since from clock) db.transfers)) max_safe_minor_units,
      db,
    )
