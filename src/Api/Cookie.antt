-- ===== src/Api/Cookie.antt =====
-- internal/api/session_cookie.go: the cookie of the refresh token, and the exchange that the
-- handlers of sessions work on.
use simplebank.Api.Handler.{done, Action, Handler}
use simplebank.Prelude.{ℕ, ℤ, pos, negsuc, String, Bool, true, Option, some}
use simplebank.Sqlc.Models.{Db}

-- `http.SameSiteStrictMode` is the field `same_site_strict`.
pub record Cookie : Type 0 where
  pub name : String
  pub value : String
  pub path : String
  pub expires : ℕ
  pub max_age : ℤ
  pub http_only : Bool
  pub secure : Bool
  pub same_site_strict : Bool

-- The tables, and the cookie that the response sets.
pub record Exchange : Type 0 where
  pub db : Db
  pub cookie : Option Cookie

abbrev pub refresh_cookie_name : String
refresh_cookie_name = "simplebank_refresh"

abbrev pub refresh_cookie : Bool → String → ℕ → Cookie
refresh_cookie secure raw expires_at = record {
  name = refresh_cookie_name;
  value = raw;
  path = "/api/v1";
  expires = expires_at;
  max_age = pos 0;
  http_only = true;
  secure = secure;
  same_site_strict = true;
}

-- time.Unix(1, 0)
abbrev pub long_ago : ℕ
long_ago = 62_135_596_801_000_000

abbrev pub cleared_cookie : Bool → Cookie
cleared_cookie secure = record (refresh_cookie secure "" long_ago) { max_age = negsuc 0 }

abbrev pub set_refresh_cookie : Bool → String → ℕ → Action Exchange (Unit {0})
set_refresh_cookie secure raw expires_at e =
    (done tt, record e { cookie = some (refresh_cookie secure raw expires_at) })

abbrev pub clear_refresh_cookie : Bool → Action Exchange (Unit {0})
clear_refresh_cookie secure e = (done tt, record e { cookie = some (cleared_cookie secure) })

-- A step on the tables.
abbrev pub on_db : {A : Type 0} → Handler A → Action Exchange A
on_db m e = let (r, db) = m e.db in (r, record e { db = db })

-- What `c.Cookie` answers: the cookie's value, `http.ErrNoCookie`, or another error.
pub data CookieRead : Type 0 where
  cookie_value : String → CookieRead
  no_cookie bad_cookie : CookieRead
