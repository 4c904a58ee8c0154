-- ===== src/Sqlc/Entries.antt =====
-- internal/db/sqlc/entries.sql.go, with the constraints of the table entries.
use simplebank.Currency.{max_safe_minor_units}
use simplebank.Errors.{ok, pg_error, refuse_if, ◌>>◌}
use simplebank.Prelude.{ℕ, ◌-◌, ◌^◌, ℤ, negsuc, ltb_ℤ, Bool, not, ◌||◌, ◌∷◌, ◌==◌, exists}
use simplebank.Sqlc.Accounts.{account_id_is}
use simplebank.Sqlc.Models.{Entry}
use simplebank.Sqlc.Tx.{Tx}

pub record CreateEntryParams : Type 0 where
  pub account_id : ℕ
  pub amount : ℤ

abbrev pub entry_id_is : ℕ → Entry → Bool
entry_id_is id e = e.id == id

abbrev pub entry_row : ℕ → ℕ → CreateEntryParams → Entry
entry_row id now p = record {
  id = id;
  account_id = p.account_id;
  amount = p.amount;
  created_at = now;
}

-- INSERT INTO entries: the check on the amount, the primary key, then the foreign key.
unfoldable pub create_entry : ℕ → ℕ → CreateEntryParams → Tx Entry
create_entry id now p db = do
  refuse_if (ltb_ℤ p.amount (negsuc (2 ^ 53 - 2)) || ltb_ℤ max_safe_minor_units p.amount)
      (pg_error "23514" "entries_amount_javascript_safe")
  refuse_if (exists (entry_id_is id) db.entries) (pg_error "23505" "entries_pkey")
  refuse_if (not (exists (account_id_is p.account_id) db.accounts))
      (pg_error "23503" "entries_account_id_fkey")
  ok (entry_row id now p, record db { entries = entry_row id now p ∷ db.entries })
