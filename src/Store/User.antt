-- ===== src/Store/User.antt =====
-- internal/db/user_tx.go and internal/db/verify_email_tx.go: registration, and the verification of
-- an email address.
pub mod Verification
use simplebank.Sqlc.VerifyEmails.{update_verify_email}
use simplebank.Store.Exec.{exec_tx}
use simplebank.Errors.{classify_error, Result}
use simplebank.Sqlc.Models.{VerifyEmail, Db, User, Pg}
use simplebank.Prelude.{none, some, String, ℕ, Option}
use simplebank.Sqlc.Users.{verify_user_email, create_user, CreateUserParams}
use simplebank.Sqlc.Tx.{map_error, pure, Tx, ◌>>=◌, ◌>>◌}

-- `after_create` stands for the callback that enqueues the verification job in the transaction.
pub record CreateUserTxParams : Type 0 where
  pub user : CreateUserParams
  pub after_create : Option (User → Tx (Unit {0}))

abbrev pub run_after_create : Option (User → Tx (Unit {0})) → User → Tx (Unit {0})
run_after_create none user = pure tt
run_after_create (some f) user = f user

unfoldable pub create_user_body : Pg → CreateUserTxParams → Tx User
create_user_body pg arg = do
  user ← map_error classify_error (create_user (pg.uuidv7 0) pg.now arg.user)
  run_after_create arg.after_create user
  pure user

unfoldable pub create_user_tx : Pg → CreateUserTxParams → Db → Result User × Db
unfolding create_user_body
create_user_tx pg arg = exec_tx (create_user_body pg arg)

pub record VerifyEmailTxParams : Type 0 where
  pub id : ℕ
  pub secret_code : String

pub record VerifyEmailTxResult : Type 0 where
  pub user : User
  pub verify_email : VerifyEmail

unfoldable pub verify_email_body : Pg → VerifyEmailTxParams → Tx VerifyEmailTxResult
verify_email_body pg arg = do
  ve ←
      map_error classify_error
        (update_verify_email pg.now (record { id = arg.id; secret_code = arg.secret_code }))
  u ← map_error classify_error (verify_user_email ve.username)
  pure (record { user = u; verify_email = ve })

unfoldable pub verify_email_tx : Pg → VerifyEmailTxParams → Db → Result VerifyEmailTxResult × Db
unfolding verify_email_body
verify_email_tx pg arg = exec_tx (verify_email_body pg arg)
