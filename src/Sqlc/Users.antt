-- ===== src/Sqlc/Users.antt =====
-- internal/db/sqlc/users.sql.go, with the constraints of the table users.
use simplebank.Errors.{ok, no_rows, pg_error, refuse_if, or_err, ◌>>=◌, ◌>>◌}
use simplebank.Prelude.{
  ℕ, String, Bool, true, false, ◌∷◌, ◌==◌, str_eq, find?, exists, update_where,
}
use simplebank.Sqlc.Accounts.{username_is}
use simplebank.Sqlc.Models.{User}
use simplebank.Sqlc.Tx.{Tx}

pub record CreateUserParams : Type 0 where
  pub username : String
  pub hashed_password : String
  pub full_name : String
  pub email : String

abbrev pub user_id_is : ℕ → User → Bool
user_id_is id u = u.id == id

abbrev pub email_is : String → User → Bool
email_is email u = str_eq u.email email

abbrev pub user_row : ℕ → ℕ → CreateUserParams → User
user_row id now p = record {
  id = id;
  username = p.username;
  hashed_password = p.hashed_password;
  full_name = p.full_name;
  email = p.email;
  is_email_verified = false;
  password_changed_at = 0;
  created_at = now;
}

-- INSERT INTO users: the unique keys, in the order in which the table declares them.
unfoldable pub create_user : ℕ → ℕ → CreateUserParams → Tx User
create_user id now p db = do
  refuse_if (exists (user_id_is id) db.users) (pg_error "23505" "users_pkey")
  refuse_if (exists (username_is p.username) db.users) (pg_error "23505" "users_username_key")
  refuse_if (exists (email_is p.email) db.users) (pg_error "23505" "users_email_key")
  ok (user_row id now p, record db { users = user_row id now p ∷ db.users })

unfoldable pub get_user : String → Tx User
get_user username db = do row ← or_err (find? (username_is username) db.users) no_rows; ok (row, db)

unfoldable pub get_user_by_email : String → Tx User
get_user_by_email email db = do row ← or_err (find? (email_is email) db.users) no_rows; ok (row, db)

abbrev pub verified : User → User
verified u = record u { is_email_verified = true }

-- UPDATE users SET is_email_verified = true
unfoldable pub verify_user_email : String → Tx User
verify_user_email username db = do
  row ← or_err (find? (username_is username) db.users) no_rows
  ok (verified row, record db { users = update_where (username_is username) verified db.users })
