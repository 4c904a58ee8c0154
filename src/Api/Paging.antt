-- ===== src/Api/Paging.antt =====
-- internal/api/account.go: the pages of `listAccounts`.
use simplebank.Token.{Payload}
use simplebank.Sqlc.Accounts.{list_accounts}
use simplebank.Sqlc.Models.{Account, Db}
use simplebank.Api.Handler.{
  ◌>>=◌, max_int32, done, auth_payload, page_offset, page_number, page_size,
}
use simplebank.Api.Accounts.{list_accounts_window, list_accounts_handler}
use simplebank.Prelude.{
  inr, drop_beyond, take_none, inl, ltb_ℤ, ap₂, Bool-cases, str_eq, drop, select, take, ltb,
  wrap32_id, order_by, wrap64_id, int_laws, some, wrap64, eq_of_parts, ◌∙◌, length, List, wrap32,
  zero, ap, ◌-◌, String, arith, pos_part, ◌≤◌, suc, ◌^◌, ◌≡◌, ◌<◌, ◌≤ℤ◌, mul_ℤ, ℕ, sub32, IsInt32,
  pos, mul64, ℤ, ◌-ℤ◌, ◌*◌,
}

-- The size of a page lies between 1 and 100, when the default does.
page_size_bounds :
    (default size : ℤ)
    → pos 1 ≤ℤ default
    → default ≤ℤ pos 100
    → (n : ℕ) × (page_size default size ≡ pos n) × (1 ≤ n) × (n ≤ 100)
page_size_bounds default size a b =
    (pos_part (page_size default size), ground arith, ground arith, ground arith)

page_number_bounds :
    (page : ℤ) → IsInt32 page → (k : ℕ) × (page_number page ≡ pos (suc k)) × (k < 2 ^ 31 - 1)
page_number_bounds page h =
    (pos_part (page_number page) - 1, ground (arith, h.greatest), ground (arith, h.greatest))

mul_le : (k n b : ℕ) → n ≤ b → k * n ≤ k * b
mul_le zero n b h = omega arith
mul_le (suc k) n b h = let rest = mul_le k n b h in omega arith

one_less : (k : ℕ) → k < 2 ^ 31 - 1 → sub32 (pos (suc k)) (pos 1) ≡ pos k
unfolding sub32
one_less k h =
    ap wrap32 (eq_of_parts (pos (suc k) -ℤ pos 1) (pos k) (omega int_laws))
    ∙ wrap32_id (pos k) (record { least = omega arith; greatest = omega arith })

product : (k n : ℕ) → mul_ℤ (pos k) (pos n) ≡ pos (k * n)
unfolding mul_ℤ
product k n = ground arith

-- Nothing wraps: the offset is the product.
page_offset-eq :
    (k n : ℕ) → k < 2 ^ 31 - 1 → n ≤ 100 → page_offset (pos (suc k)) (pos n) ≡ pos (k * n)
unfolding mul64
page_offset-eq k n a b =
    let bound = mul_le k n 100 b in
    ap (λ x. mul64 x (pos n)) (one_less k a)
    ∙ ap wrap64 (product k n)
    ∙ wrap64_id (pos (k * n)) (record { least = omega arith; greatest = omega arith })

-- The accounts of an owner, in the order of their ids.
abbrev pub accounts_of : String → Db → List Account
accounts_of owner db =
    order_by (λ a b. ltb a.id b.id) (select (λ a. str_eq a.owner owner) db.accounts)

-- A window that starts within int32 is read, and one that starts beyond it is past the end.
window :
    (n offset : ℕ) (payload : Payload) (db : Db)
    → n ≤ 100
    → length (accounts_of payload.username db) < 2 ^ 31
    → list_accounts_window (pos n) (pos offset) (some payload) db
      ≡ (done (take n (drop offset (accounts_of payload.username db))), db)
unfolding list_accounts_window auth_payload list_accounts wrap32 ◌>>=◌
window n offset payload db small few = elim (Bool-cases (ltb_ℤ max_int32 (pos offset))) [
  | inl beyond ↦ ground (
    arith,
    take_none {A = Account} n,
    drop_beyond offset (accounts_of payload.username db) (ground arith),
  )
  | inr within ↦ ground arith
]

-- For any page and size of int32 that the query may name, and a caller with fewer than 2^31
-- accounts, `listAccounts` answers with at most `n` of the caller's accounts, ordered by id, from
-- the account of index `k * n` on, where `k + 1` is the page, at least 1, and `n` the size, from 1
-- to 100 and 5 below 1. Pages past the range of int32 are empty.
pub list_accounts_page :
    (page size : ℤ) (payload : Payload) (db : Db)
    → IsInt32 page
    → length (accounts_of payload.username db) < 2 ^ 31
    → (k : ℕ) × (n : ℕ) × (page_number page ≡ pos (suc k))
      × (page_size (pos 5) size ≡ pos n)
      × (1 ≤ n)
      × (n ≤ 100)
      × (list_accounts_handler (some page) (some size) (some payload) db
          ≡ (done (take n (drop (k * n) (accounts_of payload.username db))), db))
unfolding list_accounts_handler ◌>>=◌
list_accounts_page page size payload db in_range few =
    let (k, number, small) = page_number_bounds page in_range in
    let (n, sized, low, high) = page_size_bounds (pos 5) size (omega arith) (omega arith) in
    (
      k,
      n,
      number,
      sized,
      low,
      high,
      ap₂ (λ p s. list_accounts_window s (page_offset p s) (some payload) db) number sized
          ∙ ap (λ o. list_accounts_window (pos n) o (some payload) db)
              (page_offset-eq k n small high)
          ∙ window n (k * n) payload db high few,
    )
