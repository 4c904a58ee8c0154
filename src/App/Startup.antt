-- ===== src/App/Startup.antt =====
-- cmd/app/main.go: how the parts of the service are made from the command, and the healthcheck.
use simplebank.App.{
  Errors, Call, serves, Building, Serving, or_next, with_pool, after_pool, build_app, serve_built,
  run_serve,
}
use simplebank.Config.{Json, CurrencyLimit, accepted, LimitInRange, lookup, no_limit}
use simplebank.Config.Accepted.{Sound, accepted_settings-Sound}
use simplebank.Config.Settings.{Settings, Command, Url, from_command, validate_settings}
use simplebank.Errors.{Result, ok, err, foreign, refuse_if, ◌>>=◌, ◌>>◌}
use simplebank.Prelude.{
  ◌≡◌, refl, ℕ, ◌+◌, ◌/◌, ◌==◌, ℤ, pos, negsuc, sub_ℕ, ltb_ℤ, String, Bool, true, false, not,
  Option, List, [], ◌∷◌, exists, str_eq, if◌then◌else◌,
}
use simplebank.Smtp.{ClientOption, SmtpMailer, new_smtp_mailer}

-- The sizes of a pool, its durations in nanoseconds.
pub record PoolConfig : Type 0 where
  pub max_conns : ℤ
  pub min_conns : ℤ
  pub max_conn_lifetime : ℤ
  pub max_conn_idle_time : ℤ
  pub max_conn_lifetime_jitter : ℤ

-- Go's division, which rounds toward zero.
abbrev pub tenth : ℤ → ℤ
tenth (pos n) = pos (n / 10)
tenth (negsuc n) = sub_ℕ 0 ((n + 1) / 10)

-- A positive setting replaces what the address of the database says.
abbrev pub or_set : ℤ → ℤ → ℤ
or_set setting given = if ltb_ℤ (pos 0) setting then setting else given

unfoldable pub sized : Settings → PoolConfig → PoolConfig
sized c given = record {
  max_conns = or_set c.db_max_conns given.max_conns;
  min_conns = or_set c.db_min_conns given.min_conns;
  max_conn_lifetime = or_set c.db_max_conn_lifetime given.max_conn_lifetime;
  max_conn_idle_time = or_set c.db_max_conn_idle_time given.max_conn_idle_time;
  max_conn_lifetime_jitter = tenth (or_set c.db_max_conn_lifetime given.max_conn_lifetime);
}

-- What the command line and the other packages give: the length of a text, `url.Parse`,
-- `strings.EqualFold`, whether only space is in a text, the json decoders, `os.ReadFile`, whether
-- a text has a certificate, the pool and the mail packages, the port of an address, and the text
-- of a URL of a scheme, a port of localhost and a path. `Pool` and `Client` are theirs.
pub record Environment (Pool Client : Type 0) : Type 0 where
  pub byte_length : String → ℕ
  pub parse : String → Option Url
  pub equal_fold : String → String → Bool
  pub blank : String → Bool
  pub decode_limits : String → Json CurrencyLimit
  pub decode_caps : String → Json ℤ
  pub read_file : String → Result String
  pub has_certs : String → Bool
  pub new_client : String → List ClientOption → Result Client
  pub parse_config : String → Result PoolConfig
  pub connect : PoolConfig → Result Pool
  pub split_port : String → Result String
  pub localhost_url : String → String → String → String
  pub migrate_schema : Result (Unit {0})
  pub migrate_river : Result (Unit {0})
  pub new_river_client : ℤ → String → Result (Unit {0})
  pub get : String → Bool → Result ℕ

abbrev pub error_of : {A : Type 0} → Result A → Errors
error_of (ok a) = []
error_of (err x) = x ∷ []

module _ {Pool Client : Type 0} (e : Environment Pool Client) where
  abbrev pub read_settings : Command → Settings
  read_settings cmd = from_command e.blank e.decode_limits e.decode_caps cmd

  abbrev pub checked_settings : Command → Result (Unit {0})
  checked_settings cmd = validate_settings e.byte_length e.parse e.equal_fold (read_settings cmd)

  unfoldable pub new_pool : Settings → Result Pool
  new_pool c = do given ← e.parse_config c.db_source; e.connect (sized c given)

  abbrev pub run_migrations : Result (Unit {0})
  run_migrations = do e.migrate_schema; e.migrate_river

  unfoldable pub loopback_url : String → String → String → Result String
  loopback_url scheme addr path = do port ← e.split_port addr; ok (e.localhost_url scheme port path)

  abbrev pub set_mailer : Settings → Result (SmtpMailer Client)
  set_mailer c = new_smtp_mailer e.read_file e.has_certs e.new_client c

  -- The certificate of localhost is not verified.
  unfoldable pub run_healthcheck : Command → Result (Unit {0})
  unfolding loopback_url
  run_healthcheck cmd =
      let addr = if str_eq (cmd.text "http-addr") "" then ":8080" else cmd.text "http-addr" in
      let is_tls = not (str_eq (cmd.text "tls-cert-file") "") in
      do
        url ← loopback_url (if is_tls then "https" else "http") addr "/livez"
        status ← e.get url is_tls
        refuse_if (not (status == 200)) (foreign "healthcheck failed")

  -- What the parts answer when the service is assembled.
  unfoldable pub building_of : Command → Building
  building_of cmd =
      let c = read_settings cmd in
      record {
        settings = c;
        validated = error_of (checked_settings cmd);
        new_pool = error_of (new_pool c);
        migrations = error_of run_migrations;
        mailer = error_of (set_mailer c);
        loopback_url = λ scheme. loopback_url scheme c.http_addr "";
        client = λ url. error_of (e.new_river_client c.river_max_workers url);
      }

abbrev pub is_serving : Call → Bool
is_serving serves = true
is_serving _ = false

module _ (c : Settings) (s : Serving) where
  abbrev serves_after : Errors × List Call → Bool
  serves_after built = exists is_serving (serve_built c s built).1

  mailer_set :
      (migrations mailer rest : Errors)
      → serves_after (with_pool (or_next migrations (or_next mailer rest))) ≡ true
      → mailer ≡ []
  mailer_set [] [] rest h = refl
  mailer_set [] (e ∷ es) rest h = absurd (cc h)
  mailer_set (e ∷ es) mailer rest h = absurd (cc h)

  mailer_set_after :
      (b : Building) (opened : Errors) → serves_after (after_pool b opened) ≡ true → b.mailer ≡ []
  mailer_set_after b [] h = mailer_set b.migrations b.mailer _ h
  mailer_set_after b (e ∷ es) h = absurd (cc h)

  valid_and_set :
      (b : Building) (validated : Errors)
      → serves_after (elim validated [ [] ↦ after_pool b b.new_pool | e ∷ es ↦ (e ∷ es, []) ])
        ≡ true
      → (validated ≡ []) × (b.mailer ≡ [])
  valid_and_set b [] h = (refl, mailer_set_after b b.new_pool h)
  valid_and_set b (e ∷ es) h = absurd (cc h)

all_nil :
    (b : Building) (s : Serving)
    → exists is_serving (run_serve b s).1 ≡ true
    → (b.validated ≡ []) × (b.mailer ≡ [])
unfolding run_serve build_app
all_nil b s h = valid_and_set b.settings s b b.validated h

no_error : {A : Type 0} (r : Result A) → error_of r ≡ [] → (a : A) × (r ≡ ok a)
no_error (ok a) h = (a, refl)
no_error (err x) h = absurd (cc h)

-- Whatever the outside answers, the HTTP server runs only with a configuration that was read from
-- the command and accepted, so that its secret makes a token maker, the lifetimes of its tokens
-- are positive, a certificate comes with its key, and the cookie is secure where the server
-- speaks TLS or has an https address; with transfer limits between 0 and 2^53 - 1 for every
-- currency; and with a mailer that was set up.
pub server_runs_configured :
    {Pool Client : Type 0} (e : Environment Pool Client) (cmd : Command) (s : Serving)
    → exists is_serving (run_serve (building_of e cmd) s).1 ≡ true
    → Sound e.byte_length e.parse e.equal_fold (read_settings e cmd)
      × ((table : List (String × CurrencyLimit)) × ((read_settings e cmd).transfer_limits
            ≡ accepted table)
          × ((code : String) → LimitInRange (lookup no_limit table code)))
      × ((mailer : SmtpMailer Client) × (set_mailer e (read_settings e cmd) ≡ ok mailer))
unfolding building_of
server_runs_configured e cmd s h =
    let (valid, set) = all_nil (building_of e cmd) s h in
    let (_, passed) = no_error (checked_settings e cmd) valid in
    let (sound, table, same, limits) =
      accepted_settings-Sound e.byte_length e.parse e.equal_fold e.blank e.decode_limits
        e.decode_caps cmd passed in
    (sound, (table, same, limits), no_error (set_mailer e (read_settings e cmd)) set)
