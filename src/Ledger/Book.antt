-- ===== src/Ledger/Book.antt =====
-- internal/db: what a bank book may do, and the book of the accounts.
use mathlib.Core.Path.{fun_ext}
use simplebank.Currency.{max_safe_minor_units}
use simplebank.Ledger.Accounts.{add_to}
use simplebank.Prelude.{
  ◌≡◌, arith, ℕ, ◌==◌, ℤ, pos, ◌+ℤ◌, ◌-ℤ◌, ◌≤ℤ◌, String, Option, none, some, List, [], ◌∷◌, find?,
  if◌then◌else◌,
}
use simplebank.Sqlc.Accounts.{account_id_is}
use simplebank.Sqlc.Models.{Account}

pub record Purse : Type 0 where
  pub currency : String
  pub amount : ℤ

-- A book forgets owners, entries, keys, times and the order of the rows.
abbrev pub Book : Type 0
Book = ℕ → Option Purse

abbrev pub plus : ℤ → Option Purse → Option Purse
plus x none = none
plus x (some p) = some (record p { amount = p.amount +ℤ x })

abbrev pub changed : ℕ → ℤ → Book → Book
changed id x b j = if j == id then plus x (b j) else b j

abbrev pub added : ℕ → Purse → Book → Book
added id p b j = if j == id then some p else b j

-- One step of a book: nothing, a new purse, or a payment that its source covers and its target
-- can hold, within one currency.
pub data Permits : Book → Book → Type 0 where
  stays : (b : Book) → Permits b b
  opens :
      (b : Book) (id : ℕ) (p : Purse)
      → b id ≡ none
      → pos 0 ≤ℤ p.amount
      → p.amount ≤ℤ max_safe_minor_units
      → Permits b (added id p b)
  pays :
      (b : Book) (from to : ℕ) (x : ℤ) (source target : Purse)
      → b from ≡ some source
      → b to ≡ some target
      → source.currency ≡ target.currency
      → pos 1 ≤ℤ x
      → x ≤ℤ source.amount
      → target.amount +ℤ x ≤ℤ max_safe_minor_units
      → Permits b (changed to x (changed from (pos 0 -ℤ x) b))

pub data Reaches (b : Book) : Book → Type 0 where
  here : Reaches b b
  later : {c d : Book} → Reaches b c → Permits c d → Reaches b d

abbrev pub purse_of : Option Account → Option Purse
purse_of none = none
purse_of (some a) = some (record { currency = a.currency; amount = a.balance })

abbrev pub book_of : List Account → Book
book_of rows j = purse_of (find? (account_id_is j) rows)

book_of-add_to_at :
    (id : ℕ) (x : ℤ) (rows : List Account) (j : ℕ)
    → book_of (add_to id x rows) j ≡ changed id x (book_of rows) j
book_of-add_to_at id x [] j = ground arith
book_of-add_to_at id x (a ∷ rows) j = ground (arith, book_of-add_to_at id x rows j)

-- The UPDATE of one balance is the change of one purse.
pub book_of-add_to :
    (id : ℕ) (x : ℤ) (rows : List Account)
    → book_of (add_to id x rows) ≡ changed id x (book_of rows)
book_of-add_to id x rows = fun_ext (book_of-add_to_at id x rows)

pub book_of-new :
    (a : Account) (rows : List Account)
    → book_of (a ∷ rows)
      ≡ added a.id (record { currency = a.currency; amount = a.balance }) (book_of rows)
book_of-new a rows = fun_ext (λ j. ground arith)
