-- ===== src/Api/Steps.antt =====
-- internal/api: the steps of a handler that returned no error.
use simplebank.Api.Cookie.{on_db, Exchange}
use simplebank.Store.Exec.{query}
use simplebank.Api.Errors.{store, Failure}
use simplebank.Sqlc.Tx.{Tx}
use simplebank.Errors.{classify_error, Error, err, classified, ok, Result}
use simplebank.Prelude.{ap, ◌∙◌, arith, false, Bool, refl, ◌≡◌}
use simplebank.Sqlc.Models.{Db}
use simplebank.Api.Handler.{
  call_or, Action, and_then, reply, of_result, read, reject_if, classified_call, call, given, fails,
  Reply, done, Handler, ◌>>=◌,
}

module _ {S A B : Type 0} (m : Action S A) (f : A → Action S B) {db : S} {b : B} {db'' : S} where
  -- A successful handler is a successful step, and a successful rest.
  pub >>=-eq-done :
      (m >>= f) db ≡ (done b, db'')
      → (a : A) × (db' : S) × (m db ≡ (done a, db')) × (f a db' ≡ (done b, db''))
  unfolding ◌>>=◌
  >>=-eq-done h = go (m db) refl h
    where
      go :
          (x : Reply A × S)
          → m db ≡ x
          → and_then x f ≡ (done b, db'')
          → (a : A) × (db' : S) × (m db ≡ (done a, db')) × (f a db' ≡ (done b, db''))
      go (done a, db') e h = (a, db', e, h)
      go (fails x, db') e h = absurd (cc h)

pub given-done :
    {S A B : Type 0} (a : A) (f : A → Action S B) (db : S) → (given (done a) >>= f) db ≡ f a db
unfolding ◌>>=◌
given-done a f db = refl

pub shown : {S A : Type 0} (a b : A) {db db' : S} → reply a db ≡ (done b, db') → b ≡ a
shown a b h = cc h

pub given-eq-done :
    {S A : Type 0} (r : Reply A) {db : S} {a : A} {db' : S}
    → given r db ≡ (done a, db')
    → (r ≡ done a) × (db' ≡ db)
given-eq-done r h = (cc h, cc h)

pub reject_if-eq-done :
    {S : Type 0} (c : Bool) (e : Failure) {db db' : S}
    → reject_if c e db ≡ (done tt, db')
    → (c ≡ false) × (db' ≡ db)
reject_if-eq-done c e h = ground arith

pub call-eq-done :
    {A : Type 0} (m : Db → Result A × Db) {db : Db} {a : A} {db' : Db}
    → call m db ≡ (done a, db')
    → m db ≡ (ok a, db')
call-eq-done {A} m {db} {a} {db'} h = go (m db) refl h
  where
    go :
        (x : Result A × Db)
        → m db ≡ x
        → ◌≡◌ {A = Reply A × Db} (let (r, d) = x in (of_result r, d)) (done a, db')
        → m db ≡ (ok a, db')
    go (ok b, d) e h = e ∙ cc h
    go (err b, d) e h = absurd (cc h)

pub read-eq-done :
    {A : Type 0} (m : Tx A) {db : Db} {a : A} {db' : Db}
    → classified_call (read m) db ≡ (done a, db')
    → (query m db ≡ ok a) × (db' ≡ db)
read-eq-done {A} m {db} {a} {db'} h = go (query m db) refl h
  where
    go :
        (x : Result A)
        → query m db ≡ x
        → ◌≡◌ {A = Reply A × Db} (of_result (classified x), db) (done a, db')
        → (query m db ≡ ok a) × (db' ≡ db)
    go (ok b) e h = (e ∙ cc h, cc h)
    go (err b) e h = absurd (cc h)

-- A step that answers hands its answer and its state on, and one that fails ends the handler.
module _ {S A B : Type 0} (m : Action S A) (f : A → Action S B) {s s' : S} where
  pub >>=-done : {a : A} → m s ≡ (done a, s') → (m >>= f) s ≡ f a s'
  unfolding ◌>>=◌
  >>=-done e = rw (e, ◌>>=◌)

  pub >>=-fails : {x : Failure} → m s ≡ (fails x, s') → (m >>= f) s ≡ (fails x, s')
  unfolding ◌>>=◌
  >>=-fails e = rw (e, ◌>>=◌)

-- A step on the tables of an exchange.
pub on_db-eq-done :
    {A : Type 0} (m : Handler A) {e e' : Exchange} {a : A}
    → on_db m e ≡ (done a, e')
    → (db' : Db) × (m e.db ≡ (done a, db')) × (e' ≡ record e { db = db' })
on_db-eq-done {A} m {e} {e'} {a} h = go (m e.db) refl h
  where
    go :
        (x : Reply A × Db)
        → m e.db ≡ x
        → ◌≡◌ {A = Reply A × Exchange} (let (r, d) = x in (r, record e { db = d })) (done a, e')
        → (db' : Db) × (m e.db ≡ (done a, db')) × (e' ≡ record e { db = db' })
    go (done b, d) s h = (d, s ∙ cc h, cc h)
    go (fails b, d) s h = absurd (cc h)

pub on_db-eq :
    {A : Type 0} (m : Handler A) (e : Exchange) {r : Reply A} {db' : Db}
    → m e.db ≡ (r, db')
    → on_db m e ≡ (r, record e { db = db' })
on_db-eq m e h = rw (h, on_db)

pub call_or-eq-done :
    {A : Type 0} (f : Error → Failure) (m : Db → Result A × Db) {db : Db} {a : A} {db' : Db}
    → call_or f m db ≡ (done a, db')
    → m db ≡ (ok a, db')
call_or-eq-done {A} f m {db} {a} {db'} h = go (m db) refl h
  where
    go :
        (x : Result A × Db)
        → m db ≡ x
        → ◌≡◌ {A = Reply A × Db}
            (let (r, d) = x in (elim r [ ok b ↦ done b | err e ↦ fails (f e) ], d))
            (done a, db')
        → m db ≡ (ok a, db')
    go (ok b, d) e h = e ∙ cc h
    go (err b, d) e h = absurd (cc h)

pub classified_call-eq-done :
    {A : Type 0} (m : Db → Result A × Db) {db : Db} {a : A} {db' : Db}
    → classified_call m db ≡ (done a, db')
    → m db ≡ (ok a, db')
classified_call-eq-done {A} m {db} {a} {db'} h = go (m db) refl h
  where
    go :
        (x : Result A × Db)
        → m db ≡ x
        → ◌≡◌ {A = Reply A × Db} (let (r, d) = x in (of_result (classified r), d)) (done a, db')
        → m db ≡ (ok a, db')
    go (ok b, d) e h = e ∙ cc h
    go (err b, d) e h = absurd (cc h)

pub of_result-eq-done : {A : Type 0} (r : Result A) {a : A} → of_result r ≡ done a → r ≡ ok a
of_result-eq-done (ok b) h = cc h
of_result-eq-done (err e) h = absurd (cc h)

-- A row that is there is read, and a call that returned a value answers with it.
pub read-done :
    {A : Type 0} (m : Tx A) {db : Db} {a : A} {db' : Db}
    → m db ≡ ok (a, db')
    → classified_call (read m) db ≡ (done a, db)
read-done m {db} e =
    ap (λ r. (of_result (classified (elim r [ ok (b, _) ↦ ok b | err x ↦ err x ])), db)) e

pub classified_call-done :
    {A : Type 0} (m : Db → Result A × Db) {db : Db} {a : A} {db' : Db}
    → m db ≡ (ok a, db')
    → classified_call m db ≡ (done a, db')
classified_call-done m e = ap (λ x. let (r, d) = x in (of_result (classified r), d)) e

pub classified_call-fails :
    {A : Type 0} (m : Db → Result A × Db) {db : Db} {x : Error} {db' : Db}
    → m db ≡ (err x, db')
    → classified_call m db ≡ (fails (store (classify_error x)), db')
classified_call-fails m e = ap (λ y. let (r, d) = y in (of_result (classified r), d)) e

pub call-done :
    {A : Type 0} (m : Db → Result A × Db) {db : Db} {a : A} {db' : Db}
    → m db ≡ (ok a, db')
    → call m db ≡ (done a, db')
call-done m e = ap (λ x. let (r, d) = x in (of_result r, d)) e
