-- ===== src/Store/Transfer/Locking.antt =====
-- internal/db/transfer_tx.go: `lockAccounts`.
use simplebank.Sqlc.Effects.{get_account_for_update_found, get_account_for_update-eq-ok, locked}
use simplebank.Sqlc.Tx.{step-ok, pure, map_error, ◌>>=◌, step-eq-ok, Tx}
use simplebank.Errors.{classify_error, ok}
use simplebank.Sqlc.Accounts.{account_id_is, get_account_for_update}
use simplebank.Sqlc.Models.{Account, Db}
use simplebank.Store.Transfer.{lock_accounts}
use simplebank.Prelude.{
  ◌∙◌, inr, inl, Bool-cases, ◌∷◌, ltb, if◌then◌else◌, arith, some, ◌≡◌, find?, ℕ,
}

-- The lock order, newest first: the larger id is taken last.
abbrev pub with_locks : ℕ → ℕ → Db → Db
with_locks from_id to_id db = record db {
  locks = if ltb from_id to_id then to_id ∷ from_id ∷ db.locks else from_id ∷ to_id ∷ db.locks;
}

-- Two locks, taken one after the other.
lock_both : {A : Type 0} → (first second : ℕ) → (Account → Account → A) → Tx A
lock_both first second pair = do
  a ← map_error classify_error (get_account_for_update first)
  b ← map_error classify_error (get_account_for_update second)
  pure (pair a b)

lock_both-eq-ok :
    {A : Type 0} (first second : ℕ) (pair : Account → Account → A) (db : Db) {x : A} {db' : Db}
    → lock_both first second pair db ≡ ok (x, db')
    → (a : Account) × (b : Account) × (find? (account_id_is first) db.accounts ≡ some a)
      × (find? (account_id_is second) db.accounts ≡ some b)
      × (x ≡ pair a b)
      × (db' ≡ locked second (locked first db))
unfolding lock_both
lock_both-eq-ok first second pair db h =
    let (a, db1, e1, h1) = step-eq-ok classify_error (get_account_for_update first) _ h in
    let (b, db2, e2, h2) = step-eq-ok classify_error (get_account_for_update second) _ h1 in
    let s1 = get_account_for_update-eq-ok first db e1 in
    let s2 = get_account_for_update-eq-ok second db1 e2 in
    (a, b, s1.0, ground arith, ground arith, ground arith)

lock_both_found :
    {A : Type 0} (first second : ℕ) (pair : Account → Account → A) (db : Db) {a b : Account}
    → find? (account_id_is first) db.accounts ≡ some a
    → find? (account_id_is second) db.accounts ≡ some b
    → lock_both first second pair db ≡ ok (pair a b, locked second (locked first db))
unfolding lock_both
lock_both_found first second pair db f t =
    step-ok classify_error (get_account_for_update first) _
      (get_account_for_update_found first db f)
    ∙ step-ok classify_error (get_account_for_update second) _
        (get_account_for_update_found second (locked first db) t)

pub lock_accounts-eq-ok :
    (from_id to_id : ℕ) (db : Db) {from to : Account} {db' : Db}
    → lock_accounts from_id to_id db ≡ ok ((from, to), db')
    → (find? (account_id_is from_id) db.accounts ≡ some from)
      × (find? (account_id_is to_id) db.accounts ≡ some to)
      × (db' ≡ with_locks from_id to_id db)
unfolding lock_accounts lock_both
lock_accounts-eq-ok from_id to_id db h = elim (Bool-cases (ltb from_id to_id)) [
  | inl lt ↦ let x = lock_both-eq-ok from_id to_id (λ a b. (a, b)) db (rw lt at h) in ground arith
  | inr ge ↦ let x = lock_both-eq-ok to_id from_id (λ b a. (a, b)) db (rw ge at h) in ground arith
]

pub lock_accounts_found :
    (from_id to_id : ℕ) (db : Db) {from to : Account}
    → find? (account_id_is from_id) db.accounts ≡ some from
    → find? (account_id_is to_id) db.accounts ≡ some to
    → lock_accounts from_id to_id db ≡ ok ((from, to), with_locks from_id to_id db)
unfolding lock_accounts lock_both
lock_accounts_found from_id to_id db f t = elim (Bool-cases (ltb from_id to_id)) [
  | inl lt ↦ rw lt (lock_both_found from_id to_id (λ a b. (a, b)) db f t)
  | inr ge ↦ rw ge (lock_both_found to_id from_id (λ b a. (a, b)) db t f)
]
