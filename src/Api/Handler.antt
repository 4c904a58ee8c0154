-- ===== src/Api/Handler.antt =====
-- Handlers: what they share, and internal/api/middleware.go's `authPayload` and `authorizeOwner`.
-- A handler gets the bound and validated request, the values of its query parameters, and the
-- claims of the access token as the middleware left them; it answers with a reply or a failure.
use simplebank.Token.{Payload}
use simplebank.Store.Exec.{query}
use simplebank.Sqlc.Tx.{Tx}
use simplebank.Prelude.{
  ◌-◌, wrap32, ◌^◌, pos_part, sub32, ltb_ℤ, ℕ, pos, mul64, if◌then◌else◌, ℤ, true, false, none,
  some, str_eq, not, Option, String, Bool,
}
use simplebank.Sqlc.Models.{Db}
use simplebank.Api.Errors.{new_api_error, echo, store, Failure}
use simplebank.Errors.{Error, classified, Result, ok, err}

pub data Reply (A : Type 0) : Type 0 where
  done : A → Reply A
  fails : Failure → Reply A

-- What a handler does to the state it works on, and the answer.
abbrev pub Action : Type 0 → Type 0 → Type 0
Action S A = S → Reply A × S

abbrev pub Handler : Type 0 → Type 0
Handler A = Db → Reply A × Db

-- `if err != nil { return err }`, or what follows.
abbrev pub and_then : {S A B : Type 0} → Reply A × S → (A → Action S B) → Reply B × S
and_then (done a, s) f = f a s
and_then (fails e, s) f = (fails e, s)

infixl 5 ◌>>=◌ ◌>>◌
unfoldable pub ◌>>=◌ : {S A B : Type 0} → Action S A → (A → Action S B) → Action S B
◌>>=◌ m f s = and_then (m s) f

abbrev pub ◌>>◌ : {S A B : Type 0} → Action S A → Action S B → Action S B
m >> k = m >>= λ _. k

abbrev pub reply : {S A : Type 0} → A → Action S A
reply a s = (done a, s)

-- `if err != nil { return err }` after a step that reads nothing of the store.
abbrev pub given : {S A : Type 0} → Reply A → Action S A
given r s = (r, s)

abbrev pub reject_if : {S : Type 0} → Bool → Failure → Action S (Unit {0})
reject_if c e s = elim c [ true ↦ (fails e, s) | false ↦ (done tt, s) ]

abbrev pub of_result : {A : Type 0} → Result A → Reply A
of_result (ok a) = done a
of_result (err e) = fails (store e)

-- A call of the store whose error is returned as it is, and one whose error is classified first.
abbrev pub call : {A : Type 0} → (Db → Result A × Db) → Handler A
call m db = let (r, db') = m db in (of_result r, db')

-- A call whose error becomes another failure.
abbrev pub call_or : {A : Type 0} → (Error → Failure) → (Db → Result A × Db) → Handler A
call_or f m db = let (r, db') = m db in (elim r [ ok a ↦ done a | err e ↦ fails (f e) ], db')

abbrev pub classified_call : {A : Type 0} → (Db → Result A × Db) → Handler A
classified_call m db = let (r, db') = m db in (of_result (classified r), db')

-- A SELECT through the pool.
abbrev pub read : {A : Type 0} → Tx A → Db → Result A × Db
read m db = (query m db, db)

-- No token in the context, or claims of another type, is echo's 401.
unfoldable pub auth_payload : Option Payload → Reply Payload
auth_payload none = fails (echo 401)
auth_payload (some p) = done p

unfoldable pub authorize_owner : Payload → String → Handler (Unit {0})
authorize_owner payload owner =
    reject_if (not (str_eq payload.username owner))
      (new_api_error 403 "forbidden" "you do not have access to this resource")

-- A parameter that third-party code has parsed, or the handler's error if it could not.
abbrev pub parsed : {A : Type 0} → Option A → Failure → Reply A
parsed none e = fails e
parsed (some a) e = done a

-- The window of a list: max(page, 1), and a size that is the default below 1 and at most 100.
abbrev pub page_number : ℤ → ℤ
page_number page = if ltb_ℤ page (pos 1) then pos 1 else page

abbrev pub page_size : ℤ → ℤ → ℤ
page_size default size =
    if ltb_ℤ size (pos 1) then default else if ltb_ℤ (pos 100) size then pos 100 else size

-- int64(page-1) * int64(size), and math.MaxInt32.
abbrev pub page_offset : ℤ → ℤ → ℤ
page_offset page size = mul64 (sub32 page (pos 1)) size

abbrev pub max_int32 : ℤ
max_int32 = pos (2 ^ 31 - 1)

-- The argument of a LIMIT or an OFFSET, which is not negative here.
abbrev pub int32 : ℤ → ℕ
int32 a = pos_part (wrap32 a)
