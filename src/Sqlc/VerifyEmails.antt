-- ===== src/Sqlc/VerifyEmails.antt =====
-- internal/db/sqlc/verify_emails.sql.go, with the constraints of the table verify_emails.
use simplebank.Errors.{ok, no_rows, pg_error, refuse_if, or_err, ◌>>=◌, ◌>>◌}
use simplebank.Prelude.{
  ℕ, ◌+◌, ltb, String, Bool, true, false, not, ◌&&◌, ◌∷◌, ◌==◌, str_eq, find?, exists, update_where,
}
use simplebank.Sqlc.Accounts.{username_is}
use simplebank.Sqlc.Models.{VerifyEmail}
use simplebank.Sqlc.Tx.{Tx}

pub record CreateVerifyEmailParams : Type 0 where
  pub username : String
  pub email : String
  pub secret_code : String

abbrev pub verify_email_id_is : ℕ → VerifyEmail → Bool
verify_email_id_is id v = v.id == id

-- interval '15 minutes', in microseconds
abbrev pub quarter : ℕ
quarter = 900_000_000

abbrev pub verify_email_row : ℕ → ℕ → CreateVerifyEmailParams → VerifyEmail
verify_email_row id now p = record {
  id = id;
  username = p.username;
  email = p.email;
  secret_code = p.secret_code;
  is_used = false;
  created_at = now;
  expired_at = now + quarter;
}

unfoldable pub create_verify_email : ℕ → ℕ → CreateVerifyEmailParams → Tx VerifyEmail
create_verify_email id now p db = do
  refuse_if (exists (verify_email_id_is id) db.verify_emails)
      (pg_error "23505" "verify_emails_pkey")
  refuse_if (not (exists (username_is p.username) db.users))
      (pg_error "23503" "verify_emails_username_fkey")
  ok (
    verify_email_row id now p,
    record db { verify_emails = verify_email_row id now p ∷ db.verify_emails },
  )

pub record UpdateVerifyEmailParams : Type 0 where
  pub id : ℕ
  pub secret_code : String

-- An unused code of this id that has not expired.
abbrev pub is_usable : ℕ → UpdateVerifyEmailParams → VerifyEmail → Bool
is_usable now p v =
    v.id == p.id && str_eq v.secret_code p.secret_code && not v.is_used && ltb now v.expired_at

abbrev pub used : VerifyEmail → VerifyEmail
used v = record v { is_used = true }

unfoldable pub update_verify_email : ℕ → UpdateVerifyEmailParams → Tx VerifyEmail
update_verify_email now p db = do
  row ← or_err (find? (is_usable now p) db.verify_emails) no_rows
  ok (used row, record db { verify_emails = update_where (is_usable now p) used db.verify_emails })
