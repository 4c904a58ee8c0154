-- ===== src/Ledger/DailyLimit.antt =====
-- internal/db/transfer_tx.go: the daily limit of outgoing transfers.
use simplebank.Store.Transfer.Posted.{new_transfer}
use simplebank.Errors.{ok}
use simplebank.Store.Transfer.Cases.{transfer_tx-Ended, existing}
use simplebank.Currency.{max_safe_minor_units}
use simplebank.Sqlc.Transfers.{least, outgoing_since, sum_amounts}
use simplebank.Sqlc.Models.{Db, Transfer, Pg}
use simplebank.Prelude.{
  leb_ℤ, sym, arith, inr, sub64-eq, subst, int_laws, inl, ◌-ℤ◌, none, ◌≡◌, sub64, Bool-cases, ◌∷◌,
  ◌+ℤ◌, select, ◌≤ℤ◌, pos, List, ℤ, ℕ,
}
use simplebank.Store.Transfer.{TransferTxResult, TransferTxParams, transfer_tx}

-- What an account has sent in the 24 hours before the clock.
abbrev pub sent_since : ℕ → ℕ → List Transfer → ℤ
sent_since from clock ts = sum_amounts (select (outgoing_since from clock) ts)

sent_since-∷ :
    (from clock : ℕ) (limit : ℤ) (t : Transfer) (ts : List Transfer)
    → pos 1 ≤ℤ t.amount
    → sent_since from clock ts +ℤ t.amount ≤ℤ limit
    → sent_since from clock (t ∷ ts) ≤ℤ limit
sent_since-∷ from clock limit t ts p h = elim (Bool-cases (outgoing_since from clock t)) [
  | inl hit ↦ rw hit (omega int_laws)
  | inr miss ↦ rw miss (omega int_laws)
]

-- The check of the code, without its cap and without int64.
uncapped :
    (spent amount limit : ℤ)
    → pos 1 ≤ℤ amount
    → amount ≤ℤ max_safe_minor_units
    → pos 1 ≤ℤ limit
    → limit ≤ℤ max_safe_minor_units
    → least spent max_safe_minor_units ≤ℤ sub64 limit amount
    → spent +ℤ amount ≤ℤ limit
uncapped spent amount limit a1 a2 l1 l2 h =
    let plain : least spent max_safe_minor_units ≤ℤ limit -ℤ amount =
      subst (λ x. least spent max_safe_minor_units ≤ℤ x)
        (sub64-eq limit amount a1 (omega arith) (omega arith) (omega arith)) h in
    elim (Bool-cases (leb_ℤ spent max_safe_minor_units)) [
      | inl hit ↦ let x : spent ≤ℤ limit -ℤ amount = rw hit at plain in omega int_laws
      | inr miss ↦
          let x : max_safe_minor_units ≤ℤ limit -ℤ amount = rw miss at plain in
          absurd (omega int_laws)
    ]

-- When a call with a new key succeeds under a daily limit of 1 to 2^53 - 1, the source account
-- has sent at most the limit in the 24 hours before the server's clock, this transfer included.
pub transfer_tx-within_day :
    (pg : Pg) (arg : TransferTxParams) (db : Db) {r : TransferTxResult} {db' : Db}
    → pos 1 ≤ℤ arg.daily_limit
    → arg.daily_limit ≤ℤ max_safe_minor_units
    → existing arg db ≡ none
    → transfer_tx pg arg db ≡ (ok r, db')
    → sent_since arg.from_account_id pg.clock db'.transfers ≤ℤ arg.daily_limit
transfer_tx-within_day pg arg db {r} {db'} l1 l2 new h = elim (transfer_tx-Ended pg arg db h) [
  | inl (replay, same) ↦ absurd (cc (replay.stored, new))
  | inr (missing, p) ↦
      subst (λ (d : Db). sent_since arg.from_account_id pg.clock d.transfers ≤ℤ arg.daily_limit)
        (sym p.state)
        (sent_since-∷ arg.from_account_id pg.clock arg.daily_limit (new_transfer pg arg)
          db.transfers p.money.positive
          (uncapped _ arg.amount arg.daily_limit p.money.positive p.money.safe l1 l2
            (ground (arith, p.limits.within_day))))
]
