-- ===== src/Store/Session/Ends.antt =====
-- internal/db/session_tx.go: the returns of `RotateSessionTx`.
use simplebank.Sqlc.Tx.{map_error-ok, >>=-err, lift, >>=-ok, passed, refused, step-ok, step-err}
use simplebank.Store.Exec.{exec_tx-ok, exec_tx-err}
use simplebank.Sqlc.Effects.{locked}
use simplebank.Errors.{
  session_id_mismatch, Error, no_rows, invalid_session, err, classify_error, ok,
}
use simplebank.Sqlc.Sessions.{
  rotated_to, RotateSessionParams, rotate_session, get_session_for_update, session_id_is,
}
use simplebank.Sqlc.Models.{Session, Db}
use simplebank.Prelude.{
  ◌<◌, eq_iff, ◌==◌, not, sym, subst, find?_holds, ap, ◌∷◌, ==_iff, ◌∙◌, arith, true, false, none,
  some, ◌≡◌, update_where, find?, List, ℕ,
}
use simplebank.Store.Session.{
  is_invalid, session_lookup_error, rotate_session_body, SessionReplacement, RotateSessionTxParams,
  rotate_session_tx,
}

-- A session that may be rotated, with the replacement that the caller made.
pub record Rotatable (arg : RotateSessionTxParams) (db : Db) (s : Session) (n : SessionReplacement)
    : Type 0 where
  pub found : find? (session_id_is arg.id) db.sessions ≡ some s
  pub unblocked : s.is_blocked ≡ false
  pub user : s.username ≡ arg.username
  pub token : s.refresh_token ≡ arg.refresh_token_hash
  pub unexpired : arg.now < s.expires_at
  pub replacement : arg.new_session ≡ ok n
  pub same_id : n.id ≡ s.id

abbrev pub replaced : SessionReplacement → Session → Session
replaced n s = record s { refresh_token = n.refresh_token_hash; expires_at = n.expires_at }

Rotatable-valid :
    (arg : RotateSessionTxParams) (s : Session)
    → s.is_blocked ≡ false
    → s.username ≡ arg.username
    → s.refresh_token ≡ arg.refresh_token_hash
    → arg.now < s.expires_at
    → is_invalid arg s ≡ false
Rotatable-valid arg s a b c d = ground (
  arith,
  (eq_iff s.username arg.username).1 b,
  (eq_iff s.refresh_token arg.refresh_token_hash).1 c,
)

-- The sessions after the row of an id was rotated.
abbrev pub rotated_sessions : ℕ → SessionReplacement → List Session → List Session
rotated_sessions id n = update_where (session_id_is id) (replaced n)

locked_row :
    (id : ℕ) (db : Db) (s : Session)
    → find? (session_id_is id) db.sessions ≡ some s
    → get_session_for_update id db ≡ ok (s, locked id db)
unfolding get_session_for_update
locked_row id db s h = ground arith

no_row :
    (id : ℕ) (db : Db)
    → find? (session_id_is id) db.sessions ≡ none
    → get_session_for_update id db ≡ err no_rows
unfolding get_session_for_update
no_row id db h = ground arith

rotated_row :
    (p : RotateSessionParams) (db : Db) (s : Session)
    → find? (session_id_is p.old_id) db.sessions ≡ some s
    → rotate_session p db
      ≡ ok (
        rotated_to p s,
        record db { sessions = update_where (session_id_is p.old_id) (rotated_to p) db.sessions },
      )
unfolding rotate_session
rotated_row p db s h = ground arith

-- The ways in which the transaction can end.
module _ (arg : RotateSessionTxParams) (db : Db) where
  pub open_missing :
      find? (session_id_is arg.id) db.sessions ≡ none
      → rotate_session_tx arg db ≡ (err invalid_session, db)
  unfolding rotate_session_tx rotate_session_body session_lookup_error classify_error
  open_missing h =
      exec_tx-err (rotate_session_body arg)
        (step-err session_lookup_error (get_session_for_update arg.id) _ (no_row arg.id db h))

  pub open_invalid :
      (s : Session)
      → find? (session_id_is arg.id) db.sessions ≡ some s
      → is_invalid arg s ≡ true
      → rotate_session_tx arg db ≡ (err invalid_session, db)
  unfolding rotate_session_tx rotate_session_body
  open_invalid s h bad = exec_tx-err (rotate_session_body arg) (
      step-ok session_lookup_error (get_session_for_update arg.id) _ (locked_row arg.id db s h)
      ∙ refused _ _ _ _ bad)

  named : (s : Session) → find? (session_id_is arg.id) db.sessions ≡ some s → s.id ≡ arg.id
  named s h = (==_iff s.id arg.id).0 (find?_holds (session_id_is arg.id) db.sessions s h)

  -- The rest of the body once the row has been found valid.
  rest_rotates :
      (s : Session) (n : SessionReplacement)
      → Rotatable arg db s n
      → rotate_session_body arg db
        ≡ ok (
          replaced n s,
          record db { sessions = rotated_sessions s.id n db.sessions; locks = arg.id ∷ db.locks },
        )
  unfolding rotate_session_body
  rest_rotates s n x =
      step-ok session_lookup_error (get_session_for_update arg.id) _
        (locked_row arg.id db s x.found)
      ∙ passed _ _ _ _ (Rotatable-valid arg s x.unblocked x.user x.token x.unexpired)
      ∙ >>=-ok (lift arg.new_session) _ (ap (λ r. lift r (locked arg.id db)) x.replacement)
      ∙ passed (not (n.id == s.id)) _ _ _ (ground (arith, x.same_id))
      ∙ map_error-ok classify_error (rotate_session _) (
          rotated_row
            (record {
              new_refresh_token = n.refresh_token_hash;
              new_expires_at = n.expires_at;
              old_id = s.id;
            })
            (locked arg.id db) s own)
    where
      own : find? (session_id_is s.id) db.sessions ≡ some s
      own =
          subst (λ i. find? (session_id_is i) db.sessions ≡ some s) (sym (named s x.found)) x.found

  -- A valid session is rotated in place: its id, device and user stay, its token and expiry are
  -- the replacement's, and no other row changes.
  pub valid_session_rotates :
      (s : Session) (n : SessionReplacement)
      → Rotatable arg db s n
      → rotate_session_tx arg db
        ≡ (ok (replaced n s), record db { sessions = rotated_sessions arg.id n db.sessions })
  unfolding rotate_session_tx
  valid_session_rotates s n x =
      exec_tx-ok (rotate_session_body arg) (rest_rotates s n x)
      ∙ ap (λ i. (ok (replaced n s), record db { sessions = rotated_sessions i n db.sessions }))
          (named s x.found)

  -- The caller's error, and an answer for another session, roll the transaction back.
  pub open_refused :
      (s : Session) (e : Error)
      → find? (session_id_is arg.id) db.sessions ≡ some s
      → is_invalid arg s ≡ false
      → arg.new_session ≡ err e
      → rotate_session_tx arg db ≡ (err e, db)
  unfolding rotate_session_tx rotate_session_body
  open_refused s e h good f = exec_tx-err (rotate_session_body arg) (
      step-ok session_lookup_error (get_session_for_update arg.id) _ (locked_row arg.id db s h)
      ∙ passed _ _ _ _ good
      ∙ >>=-err (lift arg.new_session) _ (ap (λ r. lift r (locked arg.id db)) f))

  pub open_mismatch :
      (s : Session) (n : SessionReplacement)
      → find? (session_id_is arg.id) db.sessions ≡ some s
      → is_invalid arg s ≡ false
      → arg.new_session ≡ ok n
      → (n.id == s.id) ≡ false
      → rotate_session_tx arg db ≡ (err session_id_mismatch, db)
  unfolding rotate_session_tx rotate_session_body
  open_mismatch s n h good f other = exec_tx-err (rotate_session_body arg) (
      step-ok session_lookup_error (get_session_for_update arg.id) _ (locked_row arg.id db s h)
      ∙ passed _ _ _ _ good
      ∙ >>=-ok (lift arg.new_session) _ (ap (λ r. lift r (locked arg.id db)) f)
      ∙ refused (not (n.id == s.id)) _ _ _ (rw other))
