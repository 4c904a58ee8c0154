-- ===== src/Store/Session/Rotation.antt =====
-- internal/db/session_tx.go: a rotation that succeeded, and the tokens that it replaced.
use simplebank.Store.Session.Ends.{
  valid_session_rotates, rotated_sessions, open_mismatch, replaced, open_missing, open_refused,
  open_invalid, Rotatable,
}
use simplebank.Errors.{Result, invalid_session, err, ok}
use simplebank.Sqlc.Sessions.{session_id_is}
use simplebank.Sqlc.Models.{Session, Db}
use simplebank.Prelude.{
  find?-update_where, ap₂, eq_iff, str_eq, refl, ◌≢◌, ◌==◌, inr, inl, Bool-cases, Option, sym, ap,
  ==_iff, ◌∙◌, arith, true, false, none, some, ◌≡◌, find?,
}
use simplebank.Store.Session.{
  is_invalid, SessionReplacement, RotateSessionTxParams, rotate_session_tx,
}

module _ (arg : RotateSessionTxParams) (db : Db) where
  -- What a rotation that succeeded has found.
  answered :
      (s : Session) (answer : Result SessionReplacement) {s' : Session} {db' : Db}
      → find? (session_id_is arg.id) db.sessions ≡ some s
      → is_invalid arg s ≡ false
      → arg.new_session ≡ answer
      → rotate_session_tx arg db ≡ (ok s', db')
      → (n : SessionReplacement) × Rotatable arg db s n
  answered s (err x) e good f h = absurd (cc (open_refused arg db s x e good f, h))
  answered s (ok n) e good f h = elim (Bool-cases (n.id == s.id)) [
    | inl hit ↦ (
      n,
      record {
        found = e;
        unblocked = ground arith;
        user = (eq_iff s.username arg.username).0 (ground arith);
        token = (eq_iff s.refresh_token arg.refresh_token_hash).0 (ground arith);
        unexpired = ground arith;
        replacement = f;
        same_id = (==_iff n.id s.id).0 hit;
      },
    )
    | inr other ↦ absurd (cc (open_mismatch arg db s n e good f other, h))
  ]

  found_valid :
      (found : Option Session) {s' : Session} {db' : Db}
      → find? (session_id_is arg.id) db.sessions ≡ found
      → rotate_session_tx arg db ≡ (ok s', db')
      → (s : Session) × (n : SessionReplacement) × Rotatable arg db s n
  found_valid none e h = absurd (cc (open_missing arg db e, h))
  found_valid (some s) e h = elim (Bool-cases (is_invalid arg s)) [
    | inl bad ↦ absurd (cc (open_invalid arg db s e bad, h))
    | inr good ↦ let (n, x) = answered s arg.new_session e good refl h in (s, n, x)
  ]

-- A rotation succeeds only for a session that is stored under the id, is not blocked, belongs to
-- the user, carries the presented token and has not expired, with a replacement for the same id.
-- Then the row has the replacement's token and expiry and is otherwise what it was.
pub rotate_session_tx-Rotatable :
    (arg : RotateSessionTxParams) (db : Db) {s' : Session} {db' : Db}
    → rotate_session_tx arg db ≡ (ok s', db')
    → (s : Session) × (n : SessionReplacement) × Rotatable arg db s n
      × (s' ≡ replaced n s)
      × (db' ≡ record db { sessions = rotated_sessions arg.id n db.sessions })
rotate_session_tx-Rotatable arg db h =
    let (s, n, x) = found_valid arg db _ refl h in
    let same = sym (valid_session_rotates arg db s n x) ∙ h in (s, n, x, cc same, cc same)

-- A refresh token works once: right after a rotation to another token, presenting the old one for
-- the same session, by any user and at any time, is refused as an invalid session and changes
-- nothing.
pub old_token_refused :
    (arg later : RotateSessionTxParams) (db : Db) {s' : Session} {db' : Db}
    → rotate_session_tx arg db ≡ (ok s', db')
    → later.id ≡ arg.id
    → later.refresh_token_hash ≡ arg.refresh_token_hash
    → s'.refresh_token ≢ arg.refresh_token_hash
    → rotate_session_tx later db' ≡ (err invalid_session, db')
old_token_refused arg later db {s'} {db'} h same_id same_token fresh =
    let (s, n, x, row, state) = rotate_session_tx-Rotatable arg db h in
    open_invalid later db' (replaced n s)
      (ap₂ (λ i (d : Db). find? (session_id_is i) d.sessions) same_id state
        ∙ find?-update_where (session_id_is arg.id) (replaced n) (λ y. refl) db.sessions s x.found)
      (stale (replaced n s)
        (λ e. fresh (ap (λ (y : Session). y.refresh_token) row ∙ e ∙ same_token)))
  where
    stale : (y : Session) → y.refresh_token ≢ later.refresh_token_hash → is_invalid later y ≡ true
    stale y ne = elim (Bool-cases (str_eq y.refresh_token later.refresh_token_hash)) [
      | inl hit ↦ absurd (ne ((eq_iff y.refresh_token later.refresh_token_hash).0 hit))
      | inr miss ↦ ground arith
    ]
