-- ===== src/Ledger/Transfers.antt =====
-- The transfers, one for each source account and key.
use simplebank.Sqlc.Transfers.{source_key_is}
use simplebank.Currency.{max_safe_minor_units}
use simplebank.Sqlc.Models.{Transfer}
use simplebank.Prelude.{[], false, ◌≡◌, exists, ◌≤ℤ◌, ◌∷◌, pos, ℤ, List}

abbrev pub UniqueKeys : List Transfer → Type 0
UniqueKeys [] = Unit
UniqueKeys (t ∷ ts) =
    (exists (source_key_is t.from_account_id t.idempotency_key) ts ≡ false) × UniqueKeys ts

pub record IsAmount (a : ℤ) : Type 0 where
  pub positive : pos 1 ≤ℤ a
  pub safe : a ≤ℤ max_safe_minor_units
