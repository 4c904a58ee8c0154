-- ===== src/Ledger/Entries.antt =====
-- The entries of an account, and their sum.
use simplebank.Sqlc.Accounts.{account_id_is}
use simplebank.Ledger.Accounts.{exists-add_to, add_to}
use simplebank.Sqlc.Models.{Account, Entry}
use simplebank.Prelude.{
  true, ◌∙◌, exists, [], ◌==◌, int_laws, ◌+ℤ◌, if◌then◌else◌, ◌∷◌, All, ◌≡◌, pos, ℤ, List, ℕ,
}

abbrev pub entries_of : ℕ → List Entry → ℤ
entries_of id [] = pos 0
entries_of id (e ∷ es) =
    if e.account_id == id then e.amount +ℤ entries_of id es else entries_of id es

abbrev pub Balanced : List Entry → Account → Type 0
Balanced es a = a.balance ≡ entries_of a.id es

abbrev pub sum_entries : List Entry → ℤ
sum_entries [] = pos 0
sum_entries (e ∷ es) = e.amount +ℤ sum_entries es

-- An entry with an UPDATE by its amount keeps the balances balanced.
pub add_to-Balanced :
    (e : Entry) (es : List Entry) (rows : List Account)
    → All (Balanced es) rows
    → All (Balanced (e ∷ es)) (add_to e.account_id e.amount rows)
add_to-Balanced e es [] all = tt
add_to-Balanced e es (a ∷ rows) all = grind (int_laws, add_to-Balanced e es rows all.1)

abbrev pub Known : List Account → Entry → Type 0
Known rows e = exists (account_id_is e.account_id) rows ≡ true

pub All-Known-add_to :
    (id : ℕ) (x : ℤ) (rows : List Account) (es : List Entry)
    → All (Known rows) es
    → All (Known (add_to id x rows)) es
All-Known-add_to id x rows [] all = tt
All-Known-add_to id x rows (e ∷ es) all =
    (exists-add_to e.account_id id x rows ∙ all.0, All-Known-add_to id x rows es all.1)
