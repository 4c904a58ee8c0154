-- ===== src/Api/Origin.antt =====
-- internal/api/middleware.go: `sameOrigin`; internal/api/server.go: `forwardedHost` and
-- `trustedForwardingHeaders`, which runs before it.
use simplebank.Api.Errors.{Failure, new_api_error}
use simplebank.Api.Handler.{Reply, done, fails}
use simplebank.Config.Settings.{Url}
use Prim.Native.String.{find, len, slice}
use simplebank.Prelude.{
  leb, ◌∙◌, sym, inr, arith, inl, Bool-cases, ◌≡◌, String, Bool, true, false, not, ◌&&◌, ◌||◌,
  Option, none, some, List, exists, str_eq, if◌then◌else◌, ap, refl,
}

-- The headers that decide; a header that is missing is empty.
pub record Headers : Type 0 where
  pub sec_fetch_site : String
  pub origin : String
  pub forwarded_for : String
  pub forwarded_proto : String
  pub forwarded_host : String

pub record HttpRequest : Type 0 where
  pub host : String
  pub remote_addr : String
  pub has_tls : Bool
  pub headers : Headers

-- The text before the first comma, or all of it.
abbrev pub before_comma : String → String
before_comma t = if leb (find t ",") (len t) then slice t 0 (find t ",") else t

-- What the handlers use of other packages: `url.Parse`, `strings.EqualFold`, `strings.TrimSpace`,
-- and whether a network of the proxies, given as a CIDR, has the address of the remote host.
pub record Net : Type 0 where
  pub parse : String → Option Url
  pub equal_fold : String → String → Bool
  pub trim_space : String → String
  pub contains : String → String → Bool

abbrev pub cross_origin_denied : Failure
cross_origin_denied = new_api_error 403 "cross_origin_denied" "cross-origin request denied"

module _ (net : Net) where
  -- The forwarding headers of a client that is no trusted proxy are deleted.
  abbrev pub is_trusted : List String → HttpRequest → Bool
  is_trusted trusted_proxies r = exists (λ cidr. net.contains cidr r.remote_addr) trusted_proxies

  unfoldable pub trusted_forwarding_headers : List String → HttpRequest → HttpRequest
  trusted_forwarding_headers trusted_proxies r =
      if is_trusted trusted_proxies r then r else record r {
        headers = record r.headers {
          forwarded_for = "";
          forwarded_proto = "";
          forwarded_host = "";
        };
      }

  unfoldable pub forwarded_host_of : String → Headers → String
  forwarded_host_of host headers =
      if str_eq headers.forwarded_host ""
      then host
      else net.trim_space (before_comma headers.forwarded_host)

  -- The scheme and the host that the origin has to have.
  abbrev pub request_scheme : HttpRequest → String
  request_scheme r =
      if r.has_tls
      then "https"
      else if str_eq r.headers.forwarded_proto "http" || str_eq r.headers.forwarded_proto "https"
      then r.headers.forwarded_proto
      else "http"

  abbrev pub configured : Option Url → String × String → String × String
  configured none given = given
  configured (some u) given = (u.scheme, u.host)

  abbrev pub expected_origin : String → HttpRequest → String × String
  expected_origin public_base_url r =
      if str_eq public_base_url ""
      then (request_scheme r, forwarded_host_of r.host r.headers)
      else configured (net.parse public_base_url)
          (request_scheme r, forwarded_host_of r.host r.headers)

  abbrev pub foreign_site : Headers → Bool
  foreign_site h =
      not (str_eq h.sec_fetch_site "")
      && not (str_eq h.sec_fetch_site "same-origin")
      && not (str_eq h.sec_fetch_site "none")

  abbrev pub is_expected : Url → String × String → Bool
  is_expected got (scheme, host) = net.equal_fold got.scheme scheme && net.equal_fold got.host host

  abbrev pub is_bare : Url → Bool
  is_bare got = not (str_eq got.scheme "") && not (str_eq got.host "") && str_eq got.path ""

  abbrev pub check_origin : String × String → Option Url → Reply (Unit {0})
  check_origin expected none = fails cross_origin_denied
  check_origin expected (some got) =
      if is_bare got && is_expected got expected then done tt else fails cross_origin_denied

  -- `next` is called where the answer is done.
  unfoldable pub same_origin : String → HttpRequest → Reply (Unit {0})
  unfolding forwarded_host_of
  same_origin public_base_url r =
      if foreign_site r.headers
      then fails cross_origin_denied
      else if str_eq r.headers.origin ""
      then done tt
      else check_origin (expected_origin public_base_url r) (net.parse r.headers.origin)

-- The origin of the server as a client sees it without a proxy.
abbrev own_scheme_host : HttpRequest → String × String
own_scheme_host r = (if r.has_tls then "https" else "http", r.host)

abbrev pub own_origin : Net → String → HttpRequest → String × String
own_origin net public_base_url r =
    if str_eq public_base_url ""
    then own_scheme_host r
    else configured net (net.parse public_base_url) (own_scheme_host r)

-- A request that was let through with an origin.
passed_origin :
    (net : Net) (expected : String × String) (url : Option Url)
    → check_origin net expected url ≡ done tt
    → (got : Url) × (url ≡ some got)
      × (is_bare net got ≡ true)
      × (is_expected net got expected ≡ true)
passed_origin net expected none h = absurd (cc h)
passed_origin net expected (some got) h =
    elim (Bool-cases (is_bare net got && is_expected net got expected)) [
      | inl both ↦ (got, refl, ground (arith, both), ground (arith, both))
      | inr other ↦ absurd (cc (rw other at h))
    ]

abbrev stripped : HttpRequest → HttpRequest
stripped r = record r {
  headers = record r.headers { forwarded_for = ""; forwarded_proto = ""; forwarded_host = "" };
}

headers_deleted :
    (net : Net) (proxies : List String) (r : HttpRequest)
    → is_trusted net proxies r ≡ false
    → trusted_forwarding_headers net proxies r ≡ stripped r
unfolding trusted_forwarding_headers
headers_deleted net proxies r h = rw h

module _ (net : Net) (public_base_url : String) (r : HttpRequest) where
  site_denied :
      foreign_site net r.headers ≡ true
      → same_origin net public_base_url r ≡ fails cross_origin_denied
  unfolding same_origin
  site_denied h = rw h

  origin_asked :
      foreign_site net r.headers ≡ false
      → str_eq r.headers.origin "" ≡ false
      → same_origin net public_base_url r
        ≡ check_origin net (expected_origin net public_base_url r) (net.parse r.headers.origin)
  unfolding same_origin
  origin_asked h k = rw (h, k)

-- A client that is no trusted proxy cannot forge its way past the check: a request of it that has
-- an origin is let through only if it does not say that it comes from another site, and its
-- origin is a bare one whose scheme and host are, up to case, those of the public address or,
-- without a usable one, the request's own host and the scheme of its connection, whatever its
-- forwarding headers say.
pub forged_origin_refused :
    (net : Net) (proxies : List String) (public_base_url : String) (r : HttpRequest)
    → is_trusted net proxies r ≡ false
    → str_eq r.headers.origin "" ≡ false
    → same_origin net public_base_url (trusted_forwarding_headers net proxies r) ≡ done tt
    → (got : Url) × (net.parse r.headers.origin ≡ some got)
      × (is_bare net got ≡ true)
      × (is_expected net got (own_origin net public_base_url r) ≡ true)
      × (foreign_site net r.headers ≡ false)
unfolding forwarded_host_of
forged_origin_refused net proxies public_base_url r untrusted has_origin h =
    let passed =
      ap (same_origin net public_base_url) (sym (headers_deleted net proxies r untrusted)) ∙ h in
    elim (Bool-cases (foreign_site net r.headers)) [
      | inl bad ↦ absurd (cc (site_denied net public_base_url (stripped r) bad, passed))
      | inr fine ↦
          let (got, found, bare, expected) =
            passed_origin net (own_origin net public_base_url r) (net.parse r.headers.origin)
              (sym (origin_asked net public_base_url (stripped r) fine has_origin) ∙ passed) in
          (got, found, bare, expected, fine)
    ]
