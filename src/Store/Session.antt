-- ===== src/Store/Session.antt =====
-- internal/db/session_tx.go: `RotateSessionTx`, the rotation of a refresh session in place.
pub mod Ends
pub mod Rotation
use simplebank.Store.Exec.{exec_tx}
use simplebank.Sqlc.Sessions.{rotate_session, get_session_for_update}
use simplebank.Sqlc.Models.{Db, Session}
use simplebank.Errors.{
  session_id_mismatch, invalid_session, classify_error, is_record_not_found, Result, Error,
}
use simplebank.Prelude.{◌==◌, leb, str_eq, not, ◌||◌, Bool, if◌then◌else◌, String, ℕ}
use simplebank.Sqlc.Tx.{lift, fail_if, map_error, Tx, ◌>>=◌, ◌>>◌}

pub record SessionReplacement : Type 0 where
  pub id : ℕ
  pub refresh_token_hash : String
  pub expires_at : ℕ

-- `new_session` is what the caller's callback answers; it has no effect on the database.
pub record RotateSessionTxParams : Type 0 where
  pub id : ℕ
  pub username : String
  pub refresh_token_hash : String
  pub now : ℕ
  pub new_session : Result SessionReplacement

-- A missing row is reported as any other invalid session.
unfoldable pub session_lookup_error : Error → Error
session_lookup_error e =
    if is_record_not_found (classify_error e) then invalid_session else classify_error e

-- The constraints under which a session may not be rotated.
abbrev pub is_invalid : RotateSessionTxParams → Session → Bool
is_invalid arg session =
    session.is_blocked
    || not (str_eq session.username arg.username)
    || not (str_eq session.refresh_token arg.refresh_token_hash)
    || leb session.expires_at arg.now

unfoldable pub rotate_session_body : RotateSessionTxParams → Tx Session
unfolding session_lookup_error
rotate_session_body arg = do
  session ← map_error session_lookup_error (get_session_for_update arg.id)
  fail_if (is_invalid arg session) invalid_session
  replacement ← lift arg.new_session
  fail_if (not (replacement.id == session.id)) session_id_mismatch
  map_error classify_error (
      rotate_session (record {
        new_refresh_token = replacement.refresh_token_hash;
        new_expires_at = replacement.expires_at;
        old_id = session.id;
      }))

unfoldable pub rotate_session_tx : RotateSessionTxParams → Db → Result Session × Db
unfolding rotate_session_body
rotate_session_tx arg = exec_tx (rotate_session_body arg)
