-- ===== src/Sqlc/Tx.antt =====
-- internal/db/sqlc/db.go: `Queries` over a transaction. A step reads and writes what the
-- transaction sees. After an error the caller of the step returns, so no state is kept.
use simplebank.Errors.{classify_error, is_record_not_found, Result, ok, err, Error}
use simplebank.Prelude.{none, if◌then◌else◌, some, Option, ◌≡◌, refl, ◌∙◌, Bool, true, false}
use simplebank.Sqlc.Models.{Db}

abbrev pub Tx : Type 0 → Type 0
Tx A = Db → Result (A × Db)

infixl 5 ◌>>=◌ ◌>>◌
abbrev pub ◌>>=◌ : {A B : Type 0} → Tx A → (A → Tx B) → Tx B
◌>>=◌ m f db = elim (m db) [ ok (a, db') ↦ f a db' | err e ↦ err e ]

abbrev pub ◌>>◌ : {A B : Type 0} → Tx A → Tx B → Tx B
m >> k = m >>= λ _. k

abbrev pub pure : {A : Type 0} → A → Tx A
pure a db = ok (a, db)

abbrev pub fail : {A : Type 0} → Error → Tx A
fail e db = err e

abbrev pub fail_if : Bool → Error → Tx (Unit {0})
fail_if c e db = elim c [ true ↦ err e | false ↦ ok (tt, db) ]

-- `if err != nil { return f(err) }`
abbrev pub map_error : {A : Type 0} → (Error → Error) → Tx A → Tx A
map_error f m db = elim (m db) [ ok r ↦ ok r | err e ↦ err (f e) ]

-- A row, or none where the classified error is that there is none.
abbrev pub optional : {A : Type 0} → Tx A → Tx (Option A)
optional m db = elim (m db) [
  | ok (a, db') ↦ ok (some a, db')
  | err e ↦ if is_record_not_found (classify_error e) then ok (none, db) else err (classify_error e)
]

abbrev pub lift : {A : Type 0} → Result A → Tx A
lift (ok a) db = ok (a, db)
lift (err e) db = err e

module _ {A B : Type 0} (m : Tx A) (f : A → Tx B) {db : Db} {b : B} {db'' : Db} where
  -- A successful sequence is a successful step, and a successful rest from where it ended.
  pub >>=-eq-ok :
      (m >>= f) db ≡ ok (b, db'')
      → (a : A) × (db' : Db) × (m db ≡ ok (a, db')) × (f a db' ≡ ok (b, db''))
  >>=-eq-ok h = split (m db) refl h
    where
      split :
          (r : Result (A × Db))
          → m db ≡ r
          → elim r [ ok (a, db') ↦ f a db' | err e ↦ err e ] ≡ ok (b, db'')
          → (a : A) × (db' : Db) × (m db ≡ ok (a, db')) × (f a db' ≡ ok (b, db''))
      split (ok (a, db')) e h = (a, db', e, h)
      split (err x) e h = cc

pub map_error-eq-ok :
    {A : Type 0} (f : Error → Error) (m : Tx A) {db : Db} {r : A × Db}
    → map_error f m db ≡ ok r
    → m db ≡ ok r
map_error-eq-ok {A} f m {db} {r} h = split (m db) refl h
  where
    split :
        (x : Result (A × Db))
        → m db ≡ x
        → elim x [ ok y ↦ ok y | err e ↦ err (f e) ] ≡ ok r
        → m db ≡ ok r
    split (ok y) e h = e ∙ h
    split (err y) e h = cc

-- The same, of a step whose error is mapped.
pub step-eq-ok :
    {A B : Type 0} (g : Error → Error) (m : Tx A) (f : A → Tx B) {db : Db} {b : B} {db'' : Db}
    → (map_error g m >>= f) db ≡ ok (b, db'')
    → (a : A) × (db' : Db) × (m db ≡ ok (a, db')) × (f a db' ≡ ok (b, db''))
step-eq-ok g m f h =
    let (a, db', e, rest) = >>=-eq-ok (map_error g m) f h in (a, db', map_error-eq-ok g m e, rest)

-- A step that succeeds hands its value and its state on.
pub >>=-ok :
    {A B : Type 0} (m : Tx A) (f : A → Tx B) {db : Db} {a : A} {db' : Db}
    → m db ≡ ok (a, db')
    → (m >>= f) db ≡ f a db'
>>=-ok m f e = rw (e, ◌>>=◌)

pub step-ok :
    {A B : Type 0} (g : Error → Error) (m : Tx A) (f : A → Tx B) {db : Db} {a : A} {db' : Db}
    → m db ≡ ok (a, db')
    → (map_error g m >>= f) db ≡ f a db'
step-ok g m f e = rw (e, map_error, ◌>>=◌)

pub map_error-ok :
    {A : Type 0} (g : Error → Error) (m : Tx A) {db : Db} {r : A × Db}
    → m db ≡ ok r
    → map_error g m db ≡ ok r
map_error-ok g m e = rw (e, map_error)

-- A step that fails ends the sequence.
pub >>=-err :
    {A B : Type 0} (m : Tx A) (f : A → Tx B) {db : Db} {e : Error}
    → m db ≡ err e
    → (m >>= f) db ≡ err e
>>=-err m f e = rw (e, ◌>>=◌)

pub step-err :
    {A B : Type 0} (g : Error → Error) (m : Tx A) (f : A → Tx B) {db : Db} {e : Error}
    → m db ≡ err e
    → (map_error g m >>= f) db ≡ err (g e)
step-err g m f e = rw (e, map_error, ◌>>=◌)

-- A guard that holds back, and one that lets pass.
module _ {B : Type 0} (c : Bool) (e : Error) (m : Tx B) (db : Db) where
  pub refused : c ≡ true → (fail_if c e >> m) db ≡ err e
  refused h = rw (h, fail_if, ◌>>=◌)

  pub passed : c ≡ false → (fail_if c e >> m) db ≡ m db
  passed h = rw (h, fail_if, ◌>>=◌)
