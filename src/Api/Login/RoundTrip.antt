-- ===== src/Api/Login/RoundTrip.antt =====
-- internal/api/user.go: `renewToken` with the cookie that `loginUser` set.
use simplebank.Api.Cookie.{Exchange, Cookie, cookie_value, refresh_cookie}
use simplebank.Api.Handler.{done}
use simplebank.Api.Login.{
  new_user_response, replacement_of, LoginUserRequest, LoginUserResponse, RenewTokenResponse,
  verify_refresh, login_user, renew_token, renewed, reissued,
}
use simplebank.Api.Tokens.{Server, Request, TokenPair, role_depositor, issue_token_pair}
use simplebank.Api.Login.Opens.{login_user-SessionStarted, opened, opened_row}
use simplebank.Api.Login.Pairs.{Signs, issue_token_pair-signed, issue_with_id-succeeds}
use simplebank.Api.Login.Renews.{Renewable, renews, renewal_of, renewed_exchange, replacement}
use simplebank.Errors.{ok}
use simplebank.Prelude.{
  find?-update_where, ap₂, ==_iff, ◌≡◌, ◌∙◌, ◌<◌, ◌==◌, ap, sym, subst, String, some, true, false,
  find?, find?_holds, refl, eq_iff, inr,
}
use simplebank.Sqlc.Accounts.{username_is}
use simplebank.Sqlc.Models.{Db, User, Session}
use simplebank.Sqlc.Sessions.{session_id_is}
use simplebank.Store.Session.Ends.{rotated_sessions, replaced}
use simplebank.Token.{new_payload_with_id, new_payload, JwtLaws, Payload, refresh, valid}
use simplebank.Token.Claims.{verdict-early, signed-verdict}

-- The claims that a refresh token is verified to have.
abbrev pub presented : TokenPair → Payload
presented tokens = record tokens.refresh_payload { expected_type = refresh }

-- A refresh token of a pair that was issued for a login verifies until it expires.
pub refresh_verifies :
    (server : Server) (laws : JwtLaws server.jwt) (first later : Request) (username : String)
    (tokens : TokenPair)
    → issue_token_pair server first username role_depositor ≡ ok tokens
    → later.now < tokens.refresh_payload.expires_at
    → verify_refresh server later tokens.refresh ≡ valid (presented tokens)
unfolding new_payload new_payload_with_id
refresh_verifies server laws first later username tokens issued early =
    let (signed, same) = issue_token_pair-signed server first username role_depositor issued in
    let kind : tokens.refresh_payload.token_type ≡ refresh =
      ap (λ (p : Payload). p.token_type) same in
    signed-verdict server.jwt laws server.token_maker tokens.refresh_payload later.now signed
      (inr kind) refresh (inr refl)
    ∙ verdict-early tokens.refresh_payload refresh later.now early kind

-- The user of a login is found by the name of its row.
named_as :
    (username : String) (db : Db) (u : User)
    → find? (username_is username) db.users ≡ some u
    → u.username ≡ username
named_as username db u h =
    (eq_iff u.username username).0 (find?_holds (username_is username) db.users u h)

named_user :
    (username : String) (db : Db) (u : User)
    → find? (username_is username) db.users ≡ some u
    → find? (username_is u.username) db.users ≡ some u
named_user username db u h =
    subst (λ n. find? (username_is n) db.users ≡ some u) (sym (named_as username db u h)) h

opened-Renewable :
    (server : Server) (laws : JwtLaws server.jwt) (first later : Request) (u : User)
    (tokens next : TokenPair) (e : Exchange)
    → find? (username_is u.username) e.db.users ≡ some u
    → u.is_email_verified ≡ true
    → issue_token_pair server first u.username role_depositor ≡ ok tokens
    → later.now < tokens.refresh_payload.expires_at
    → reissued server later (presented tokens) ≡ ok next
    → next.refresh_payload.id ≡ tokens.refresh_payload.id
    → Renewable server later tokens.refresh
        (presented tokens)
        u
        next
        (opened server first tokens u e)
        (opened_row server first tokens u)
unfolding new_payload new_payload_with_id
opened-Renewable server laws first later u tokens next e found verified issued early again same_id =
    let (signed, same) = issue_token_pair-signed server first u.username role_depositor issued in
    let name : tokens.refresh_payload.username ≡ u.username =
      ap (λ (p : Payload). p.username) same in
    record {
      token = refresh_verifies server laws first later u.username tokens issued early;
      found = subst (λ n. find? (username_is n) e.db.users ≡ some u) (sym name) found;
      verified = verified;
      issued = again;
      rotatable = record {
        found = rw ((==_iff tokens.refresh_payload.id tokens.refresh_payload.id).1 refl);
        unblocked = refl;
        user = sym name;
        token = refl;
        unexpired = early;
        replacement = ap (replacement_of server later) again;
        same_id = same_id;
      };
    }

-- A renewal that was answered for a login: the same user, a cookie with a new refresh token, and
-- under the login's session id a row that carries that token's digest.
pub record AnsweredFor (server : Server) (login : LoginUserResponse) (r : RenewTokenResponse)
    (e : Exchange) : Type 0 where
  pub next : TokenPair
  pub row : Session
  pub user : r.user ≡ login.user
  pub access_token : r.access_token ≡ next.access
  pub cookie :
      e.cookie
      ≡ some
          (refresh_cookie server.session_cookie_secure next.refresh next.refresh_payload.expires_at)
  pub stored : find? (session_id_is login.session_id) e.db.sessions ≡ some row
  pub digest : row.refresh_token ≡ server.digest next.refresh

-- What the renewal of an opened session leaves behind.
renewed_session :
    (server : Server) (first later : Request) (u : User) (tokens next : TokenPair) (e : Exchange)
    {response : LoginUserResponse}
    → response.user ≡ new_user_response u
    → response.session_id ≡ tokens.refresh_payload.id
    → Renewable server later tokens.refresh
        (presented tokens)
        u
        next
        (opened server first tokens u e)
        (opened_row server first tokens u)
    → AnsweredFor server response
        (renewal_of next u)
        (renewed_exchange server (presented tokens) next (opened server first tokens u e))
renewed_session server first later u tokens next e user id x = record {
  next = next;
  row = replaced (replacement server next) (opened_row server first tokens u);
  user = sym user;
  access_token = refl;
  cookie = refl;
  stored =
      ap
        (λ i. find? (session_id_is i) (
          rotated_sessions tokens.refresh_payload.id (replacement server next)
            (opened server first tokens u e).db.sessions))
        id
      ∙ find?-update_where (session_id_is tokens.refresh_payload.id)
          (replaced (replacement server next)) (λ y. refl)
          (opened server first tokens u e).db.sessions (opened_row server first tokens u)
          x.rotatable.found;
  digest = refl;
}

cookie_of :
    (e e' : Exchange) {c d : Cookie} → e' ≡ e → e'.cookie ≡ some c → e.cookie ≡ some d → c ≡ d
cookie_of e e' s h k = cc (s, h, k)

-- A login can be renewed: if the package jwt keeps its laws and signs the two payloads of the
-- renewal, and the refresh token was drawn an id that is not the nil uuid, then presenting the cookie that
-- the login set, at any time before it expires, is answered with new tokens for the same user.
-- The new refresh token is in the cookie, and its digest in the session of the login.
pub login_then_renew :
    (server : Server) (laws : JwtLaws server.jwt) (first later : Request) (req : LoginUserRequest)
    (e : Exchange) {response : LoginUserResponse} {e' : Exchange} (c : Cookie)
    → login_user server first (done req) e ≡ (done response, e')
    → (first.refresh_draw.id == 0) ≡ false
    → e'.cookie ≡ some c
    → later.now < c.expires
    → Signs server later first.refresh_draw.id req.username role_depositor
    → (r : RenewTokenResponse) × (e'' : Exchange) × (renew_token server later
          (cookie_value c.value)
          e'
        ≡ (done (renewed r), e''))
      × AnsweredFor server response r e''
unfolding new_payload new_payload_with_id
login_then_renew server laws first later req e {response} {e'} c h drawn has early signs =
    let (u, found, right, verified, x) = login_user-SessionStarted server first req e h in
    let (signed, same) = issue_token_pair-signed server first u.username role_depositor x.issued in
    let set : c
        ≡ refresh_cookie server.session_cookie_secure x.tokens.refresh
            x.tokens.refresh_payload.expires_at =
      cookie_of (opened server first x.tokens u e) e' x.state has refl in
    let named : (x.tokens.refresh_payload.id == 0) ≡ false =
      ap (λ (p : Payload). p.id == 0) same ∙ drawn in
    let renewable : Signs server later x.tokens.refresh_payload.id x.tokens.refresh_payload.username
        x.tokens.refresh_payload.role =
      subst (λ (p : Payload). Signs server later p.id p.username p.role) (sym same)
        (subst (λ n. Signs server later first.refresh_draw.id n role_depositor)
          (sym (named_as req.username e.db u found)) signs) in
    let (next, again, same_id) =
      issue_with_id-succeeds server later x.tokens.refresh_payload.username
        x.tokens.refresh_payload.role x.tokens.refresh_payload.id renewable named in
    let ready =
      opened-Renewable server laws first later u x.tokens next e
        (named_user req.username e.db u found) verified x.issued
        (subst (λ (k : Cookie). later.now < k.expires) set early) again same_id in
    (
      renewal_of next u,
      renewed_exchange server (presented x.tokens) next (opened server first x.tokens u e),
      ap₂ (λ (k : Cookie) y. renew_token server later (cookie_value k.value) y) set x.state
          ∙ renews server later x.tokens.refresh (presented x.tokens) u next
              (opened server first x.tokens u e) (opened_row server first x.tokens u) ready,
      renewed_session server first later u x.tokens next e
          (ap (λ (r : LoginUserResponse). r.user) x.answer)
          (ap (λ (r : LoginUserResponse). r.session_id) x.answer) ready,
    )
