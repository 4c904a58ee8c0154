-- ===== src/Ledger/Accounts.antt =====
-- The accounts under an UPDATE of one balance.
use simplebank.Currency.{max_safe_minor_units}
use simplebank.Sqlc.Accounts.{add_balance, account_id_is}
use simplebank.Sqlc.Models.{Account}
use simplebank.Prelude.{
  refl, [], inr, int_laws, inl, Bool-cases, All, some, false, ◌≡◌, ◌≢◌, ◌+ℤ◌, ◌≤ℤ◌, arith,
  update_where, exists, find?, ℤ, pos, ◌∷◌, ℕ, List,
}

-- No two accounts share an id.
abbrev pub UniqueIds : List Account → Type 0
UniqueIds [] = Unit
UniqueIds (a ∷ rows) = (exists (account_id_is a.id) rows ≡ false) × UniqueIds rows

pub record InRange (a : Account) : Type 0 where
  pub nonnegative : pos 0 ≤ℤ a.balance
  pub safe : a.balance ≤ℤ max_safe_minor_units

abbrev pub sum_balances : List Account → ℤ
sum_balances [] = pos 0
sum_balances (a ∷ rows) = a.balance +ℤ sum_balances rows

-- The UPDATE of the balance of one account.
abbrev pub add_to : ℕ → ℤ → List Account → List Account
add_to id x = update_where (account_id_is id) (add_balance x)

pub exists-add_to :
    (j id : ℕ) (x : ℤ) (rows : List Account)
    → exists (account_id_is j) (add_to id x rows) ≡ exists (account_id_is j) rows
exists-add_to j id x [] = refl
exists-add_to j id x (a ∷ rows) = ground (arith, exists-add_to j id x rows)

pub add_to-UniqueIds :
    (id : ℕ) (x : ℤ) (rows : List Account) → UniqueIds rows → UniqueIds (add_to id x rows)
add_to-UniqueIds id x [] u = tt
add_to-UniqueIds id x (a ∷ rows) u =
    ground (arith, exists-add_to a.id id x rows, add_to-UniqueIds id x rows)

pub add_to_missing :
    (id : ℕ) (x : ℤ) (rows : List Account)
    → exists (account_id_is id) rows ≡ false
    → add_to id x rows ≡ rows
add_to_missing id x [] h = refl
add_to_missing id x (a ∷ rows) h = ground (arith, add_to_missing id x rows)

pub find?-add_to_self :
    (id : ℕ) (x : ℤ) (rows : List Account) (a : Account)
    → find? (account_id_is id) rows ≡ some a
    → find? (account_id_is id) (add_to id x rows) ≡ some (add_balance x a)
find?-add_to_self id x [] a h = cc
find?-add_to_self id x (b ∷ rows) a h = ground (arith, find?-add_to_self id x rows a)

pub find?-add_to_ne :
    (j id : ℕ) (x : ℤ) (rows : List Account)
    → j ≢ id
    → find? (account_id_is j) (add_to id x rows) ≡ find? (account_id_is j) rows
find?-add_to_ne j id x [] ne = refl
find?-add_to_ne j id x (b ∷ rows) ne = ground (arith, find?-add_to_ne j id x rows)

pub add_to-InRange :
    (id : ℕ) (x : ℤ) (rows : List Account) (a : Account)
    → UniqueIds rows
    → find? (account_id_is id) rows ≡ some a
    → InRange (add_balance x a)
    → All InRange rows
    → All InRange (add_to id x rows)
add_to-InRange id x [] a u h r all = cc
add_to-InRange id x (b ∷ rows) a u h r all =
    ground (arith, add_to-InRange id x rows a u.1, add_to_missing id x rows)

pub find?-InRange :
    (id : ℕ) (rows : List Account) (a : Account)
    → find? (account_id_is id) rows ≡ some a
    → All InRange rows
    → InRange a
find?-InRange id [] a h all = cc
find?-InRange id (b ∷ rows) a h all = ground (arith, find?-InRange id rows a)

-- With unique ids the sum moves by the amount.
pub sum_balances-add_to :
    (id : ℕ) (x : ℤ) (rows : List Account) (a : Account)
    → UniqueIds rows
    → find? (account_id_is id) rows ≡ some a
    → sum_balances (add_to id x rows) ≡ sum_balances rows +ℤ x
sum_balances-add_to id x [] a u h = cc
sum_balances-add_to id x (b ∷ rows) a u h = elim (Bool-cases (account_id_is id b)) [
  | inl hit ↦ rw (hit, add_to_missing id x rows (ground arith)) (omega int_laws)
  | inr miss ↦ rw (miss, sum_balances-add_to id x rows a u.1 (ground arith)) (omega int_laws)
]
