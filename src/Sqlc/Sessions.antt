-- ===== src/Sqlc/Sessions.antt =====
-- internal/db/sqlc/sessions.sql.go, with the constraints of the table sessions.
use simplebank.Errors.{ok, no_rows, pg_error, refuse_if, or_err, ◌>>=◌, ◌>>◌}
use simplebank.Prelude.{ℕ, String, Bool, true, not, ◌∷◌, ◌==◌, find?, exists, update_where}
use simplebank.Sqlc.Accounts.{username_is}
use simplebank.Sqlc.Models.{Session}
use simplebank.Sqlc.Tx.{Tx}

pub record CreateSessionParams : Type 0 where
  pub id : ℕ
  pub username : String
  pub refresh_token : String
  pub user_agent : String
  pub client_ip : String
  pub is_blocked : Bool
  pub expires_at : ℕ

abbrev pub session_id_is : ℕ → Session → Bool
session_id_is id s = s.id == id

abbrev pub session_row : ℕ → CreateSessionParams → Session
session_row now p = record {
  id = p.id;
  username = p.username;
  refresh_token = p.refresh_token;
  user_agent = p.user_agent;
  client_ip = p.client_ip;
  is_blocked = p.is_blocked;
  expires_at = p.expires_at;
  created_at = now;
}

-- INSERT INTO sessions: the id is the caller's.
unfoldable pub create_session : ℕ → CreateSessionParams → Tx Session
create_session now p db = do
  refuse_if (exists (session_id_is p.id) db.sessions) (pg_error "23505" "sessions_pkey")
  refuse_if (not (exists (username_is p.username) db.users))
      (pg_error "23503" "sessions_username_fkey")
  ok (session_row now p, record db { sessions = session_row now p ∷ db.sessions })

unfoldable pub get_session : ℕ → Tx Session
get_session id db = do row ← or_err (find? (session_id_is id) db.sessions) no_rows; ok (row, db)

-- FOR UPDATE: the row is locked until the transaction ends.
unfoldable pub get_session_for_update : ℕ → Tx Session
get_session_for_update id db = do
  row ← or_err (find? (session_id_is id) db.sessions) no_rows
  ok (row, record db { locks = id ∷ db.locks })

pub record RotateSessionParams : Type 0 where
  pub new_refresh_token : String
  pub new_expires_at : ℕ
  pub old_id : ℕ

abbrev pub rotated_to : RotateSessionParams → Session → Session
rotated_to p s = record s { refresh_token = p.new_refresh_token; expires_at = p.new_expires_at }

unfoldable pub rotate_session : RotateSessionParams → Tx Session
rotate_session p db = do
  row ← or_err (find? (session_id_is p.old_id) db.sessions) no_rows
  ok (
    rotated_to p row,
    record db { sessions = update_where (session_id_is p.old_id) (rotated_to p) db.sessions },
  )

abbrev pub blocked : Session → Session
blocked s = record s { is_blocked = true }

unfoldable pub block_session : ℕ → Tx Session
block_session id db = do
  row ← or_err (find? (session_id_is id) db.sessions) no_rows
  ok (blocked row, record db { sessions = update_where (session_id_is id) blocked db.sessions })
