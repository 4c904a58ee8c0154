-- ===== src/Api/Users/Registration.antt =====
-- internal/api/user.go: what `createUser` replies.
use simplebank.Api.Handler.{Reply, done, given, ◌>>=◌, of_result}
use simplebank.Api.Users.{
  answer_created, create_params, CreateUserRequest, RiverClient, Accepted, verification_accepted,
  queue_verify_email_tx, create_user_handler,
}
use simplebank.Api.Steps.{>>=-done}
use simplebank.Errors.{pg_error, Result, ok, err, username_exists, email_exists, classify_error}
use simplebank.Prelude.{
  ◌∷◌, ◌≡◌, ◌∙◌, ap, String, Option, some, true, false, exists, refl, ℕ, inl, inr, Bool-cases,
}
use simplebank.Sqlc.Accounts.{username_is}
use simplebank.Sqlc.Models.{Db, User, Pg}
use simplebank.Sqlc.Users.{user_row, create_user, CreateUserParams, user_id_is, email_is}
use simplebank.Sqlc.Tx.{>>=-ok, step-ok, step-err, Tx}
use simplebank.Store.Exec.{exec_tx-ok, exec_tx-err}
use simplebank.Store.User.{CreateUserTxParams, create_user_tx, create_user_body}

-- The statement, where the drawn id is new.
module _ (id now : ℕ) (p : CreateUserParams) (db : Db)
    (new : exists (user_id_is id) db.users ≡ false) where
  taken_username :
      exists (username_is p.username) db.users ≡ true
      → create_user id now p db ≡ err (pg_error "23505" "users_username_key")
  unfolding create_user
  taken_username h = rw (new, h)

  taken_email :
      exists (username_is p.username) db.users ≡ false
      → exists (email_is p.email) db.users ≡ true
      → create_user id now p db ≡ err (pg_error "23505" "users_email_key")
  unfolding create_user
  taken_email free h = rw (new, free, h)

  free_names :
      exists (username_is p.username) db.users ≡ false
      → exists (email_is p.email) db.users ≡ false
      → create_user id now p db
        ≡ ok (user_row id now p, record db { users = user_row id now p ∷ db.users })
  unfolding create_user
  free_names free h = rw (new, free, h)

module _ (pg : Pg) (p : CreateUserParams) (after : User → Tx (Unit {0})) (db : Db)
    (new : exists (user_id_is (pg.uuidv7 0)) db.users ≡ false) where
  abbrev params : CreateUserTxParams
  params = record { user = p; after_create = some after }

  abbrev row : User
  row = user_row (pg.uuidv7 0) pg.now p

  abbrev inserted : Db
  inserted = record db { users = row ∷ db.users }

  pub username_refused :
      exists (username_is p.username) db.users ≡ true
      → create_user_tx pg params db ≡ (err username_exists, db)
  unfolding create_user_tx create_user_body classify_error
  username_refused h = exec_tx-err (create_user_body pg params) (
      step-err classify_error (create_user (pg.uuidv7 0) pg.now p) _
        (taken_username (pg.uuidv7 0) pg.now p db new h))

  pub email_refused :
      exists (username_is p.username) db.users ≡ false
      → exists (email_is p.email) db.users ≡ true
      → create_user_tx pg params db ≡ (err email_exists, db)
  unfolding create_user_tx create_user_body classify_error
  email_refused free h = exec_tx-err (create_user_body pg params) (
      step-err classify_error (create_user (pg.uuidv7 0) pg.now p) _
        (taken_email (pg.uuidv7 0) pg.now p db new free h))

  pub user_created :
      {db' : Db}
      → exists (username_is p.username) db.users ≡ false
      → exists (email_is p.email) db.users ≡ false
      → after row inserted ≡ ok (tt, db')
      → create_user_tx pg params db ≡ (ok row, record db' { locks = db.locks })
  unfolding create_user_tx create_user_body
  user_created {db'} free unused queued =
      exec_tx-ok (create_user_body pg params) {a = row} {db' = db'} (
        step-ok classify_error (create_user (pg.uuidv7 0) pg.now p) _
          (free_names (pg.uuidv7 0) pg.now p db new free unused)
        ∙ >>=-ok (after row) _ queued)

-- The queue takes a verification job in every transaction.
abbrev pub Queues : Option RiverClient → Type 0
Queues river =
    (username : String) (db : Db)
    → (db' : Db) × (queue_verify_email_tx river username db ≡ ok (tt, db'))

module _ (river : Option RiverClient) (queues : Queues river) (hash : String → Result String)
    (pg : Pg) (req : CreateUserRequest) (hashed : String) (db : Db)
    (new : exists (user_id_is (pg.uuidv7 0)) db.users ≡ false) where
  abbrev p : CreateUserParams
  p = (create_params river req hashed).user

  abbrev after : User → Tx (Unit {0})
  after u = queue_verify_email_tx river u.username

  reply_of :
      {x : Result User × Db}
      → create_user_tx pg (create_params river req hashed) db ≡ x
      → (answer_created river req.email x).0 ≡ done verification_accepted
      → (answer_created river req.email (create_user_tx pg (create_params river req hashed) db)).0
        ≡ done verification_accepted
  reply_of e h = ap (λ y. (answer_created river req.email y).0) e ∙ h

  -- Each of the three ways in which the row can be inserted or refused is accepted.
  every_case :
      (answer_created river req.email (create_user_tx pg (create_params river req hashed) db)).0
      ≡ done verification_accepted
  unfolding classify_error
  every_case = elim (Bool-cases (exists (username_is req.username) db.users)) [
    | inl taken ↦ reply_of (username_refused pg p after db new taken) refl
    | inr free ↦ elim (Bool-cases (exists (email_is req.email) db.users)) [
      | inl taken ↦ reply_of (email_refused pg p after db new free taken) refl
      | inr unused ↦
          let (db', queued) =
            queues req.username
              (record db { users = user_row (pg.uuidv7 0) pg.now p ∷ db.users }) in
          reply_of (user_created pg p after db new free unused queued) refl
    ]
  ]

-- A registration does not tell whether the username or the address is known: if the password can
-- be hashed, the id that PostgreSQL draws is new and the queue takes a verification job in every
-- transaction, the reply is the same acceptance on every database.
pub registration_hides_users :
    (river : Option RiverClient) (queues : Queues river) (hash : String → Result String) (pg : Pg)
    (req : CreateUserRequest) (hashed : String) (db : Db)
    → hash req.password ≡ ok hashed
    → exists (user_id_is (pg.uuidv7 0)) db.users ≡ false
    → (create_user_handler river hash pg (done req) db).0 ≡ done verification_accepted
unfolding create_user_handler ◌>>=◌
registration_hides_users river queues hash pg req hashed db h new =
    ap (λ (x : Reply Accepted × Db). x.0)
      (>>=-done (given (of_result (hash req.password))) _ (ap (λ r. (of_result r, db)) h))
    ∙ every_case river queues hash pg req hashed db new
