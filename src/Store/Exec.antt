-- ===== src/Store/Exec.antt =====
-- internal/db/store.go: `execTx`, and a query outside every transaction.
use simplebank.Prelude.{refl, ap, ◌∙◌, sym, ◌≡◌}
use simplebank.Errors.{Error, Result, ok, err}
use simplebank.Sqlc.Models.{Db}
use simplebank.Sqlc.Tx.{Tx}

-- A body that returns nil is committed, and one that returns an error is rolled back. Either way
-- the locks that it took are released.
unfoldable pub exec_tx : {A : Type 0} → Tx A → Db → Result A × Db
exec_tx body db = elim (body db) [
  | ok (a, db') ↦ (ok a, record db' { locks = db.locks })
  | err e ↦ (err e, db)
]

-- A SELECT through the pool.
abbrev pub query : {A : Type 0} → Tx A → Db → Result A
query m db = elim (m db) [ ok (a, _) ↦ ok a | err e ↦ err e ]

module _ {A : Type 0} (body : Tx A) {db : Db} where
  -- What the caller gets, and what is committed.
  pub exec_tx-ok :
      {a : A} {db' : Db}
      → body db ≡ ok (a, db')
      → exec_tx body db ≡ (ok a, record db' { locks = db.locks })
  unfolding exec_tx
  exec_tx-ok e = rw (e, exec_tx)

  pub exec_tx-err : {e : Error} → body db ≡ err e → exec_tx body db ≡ (err e, db)
  unfolding exec_tx
  exec_tx-err e = rw (e, exec_tx)

  -- A transaction that returned a value was committed as its body left it.
  pub exec_tx-eq-ok :
      {a : A} {db'' : Db}
      → exec_tx body db ≡ (ok a, db'')
      → (db' : Db) × (body db ≡ ok (a, db')) × (db'' ≡ record db' { locks = db.locks })
  exec_tx-eq-ok {a} {db''} h = split (body db) refl
    where
      split :
          (r : Result (A × Db))
          → body db ≡ r
          → (db' : Db) × (body db ≡ ok (a, db')) × (db'' ≡ record db' { locks = db.locks })
      split (ok (b, db')) e =
          let same : ◌≡◌ {A = Result A × Db} (ok b, record db' { locks = db.locks }) (ok a, db'') =
            sym (exec_tx-ok e) ∙ h in
          (db', e ∙ ap (λ x. ok (x, db')) (cc same), cc same)
      split (err x) e =
          let same : ◌≡◌ {A = Result A × Db} (err x, db) (ok a, db'') = sym (exec_tx-err e) ∙ h in
          cc same

  -- One that returned an error was rolled back.
  pub exec_tx-eq-err : {x : Error} {db' : Db} → exec_tx body db ≡ (err x, db') → db' ≡ db
  exec_tx-eq-err {x} {db'} h = split (body db) refl
    where
      split : (r : Result (A × Db)) → body db ≡ r → db' ≡ db
      split (ok (b, db1)) e =
          let same : ◌≡◌ {A = Result A × Db} (ok b, record db1 { locks = db.locks }) (err x, db') =
            sym (exec_tx-ok e) ∙ h in
          cc same
      split (err y) e =
          let same : ◌≡◌ {A = Result A × Db} (err y, db) (err x, db') = sym (exec_tx-err e) ∙ h in
          cc same

-- What a SELECT answers.
module _ {A : Type 0} (m : Tx A) {db : Db} where
  pub query-ok : {a : A} {db' : Db} → m db ≡ ok (a, db') → query m db ≡ ok a
  query-ok e = rw (e, query)

  pub query-err : {e : Error} → m db ≡ err e → query m db ≡ err e
  query-err e = rw (e, query)
