-- ===== src/Tests/Running.antt =====
-- cmd/app/main.go: a run of the service whose worker does not stop in time.
use simplebank.Smtp.{new_smtp_mailer, SmtpMailer}
use simplebank.Currency.{is_supported}
use simplebank.Config.{
  no_limit, lookup, check_transfer_limit, LimitInRange, first_error, accepted, parse_limits,
  CurrencyLimit, parse_account_opening_limits, parse_transfer_limits,
}
use simplebank.Config.Settings.{from_command, validate_settings}
use simplebank.Config.Accepted.{Sound}
use simplebank.App.Startup.{
  is_serving, server_runs_configured, set_mailer, new_pool, building_of, Environment,
}
use simplebank.App.{
  start_server, start_service, run_services, build_app, ended, server_closed, Building, Serving,
  answered, run_serve,
}
use simplebank.App.Clean.{clean_calls, nil_run_stops_all}
use simplebank.App.Bracketed.{left_after, run_serve_stops}
use simplebank.Errors.{foreign, ok}
use simplebank.Prelude.{refl, exists, pos, true, String, List, str_eq, ◌≡◌, ◌∷◌, [], some}
use simplebank.Tests.Server.{command, caps_of, limits_of, parse_url, settings}

abbrev building : Building
building = record {
  settings = settings;
  validated = [];
  new_pool = [];
  migrations = [];
  mailer = [];
  loopback_url = λ scheme. ok "";
  client = λ url. [];
}

abbrev serving : Serving
serving = record {
  maker = [];
  server = [];
  dist = [];
  http = record { read_file = λ f. ok f; start = λ a. server_closed; start_tls = λ a c k. ended };
  answers = record {
    listener_starting = answered [];
    worker_starting = answered [];
    serve = [];
    worker_stop = foreign "deadline exceeded" ∷ [];
    worker_cancel = some [];
    listener_stop = [];
  };
}

run_serve_stops_example : left_after (run_serve building serving).1 [] ≡ some []
run_serve_stops_example = run_serve_stops building serving

-- Nothing fails here.
abbrev smooth : Serving
smooth = record serving {
  answers = record {
    listener_starting = answered [];
    worker_starting = answered [];
    serve = [];
    worker_stop = [];
    worker_cancel = some [];
    listener_stop = [];
  };
}

smooth_nil : (run_serve building smooth).0 ≡ []
unfolding run_serve build_app run_services start_service start_server from_command
smooth_nil = refl

nil_run_stops_all_example : (run_serve building smooth).1 ≡ clean_calls
nil_run_stops_all_example = nil_run_stops_all building smooth smooth_nil

abbrev environment : Environment (Unit {0}) (Unit {0})
environment = record {
  byte_length = λ t. 32;
  parse = parse_url;
  equal_fold = str_eq;
  blank = λ t. str_eq t "";
  decode_limits = limits_of;
  decode_caps = caps_of;
  read_file = λ f. ok f;
  has_certs = λ pem. true;
  new_client = λ host options. ok tt;
  parse_config = λ t. ok (record {
    max_conns = pos 4;
    min_conns = pos 0;
    max_conn_lifetime = pos 3_600;
    max_conn_idle_time = pos 1_800;
    max_conn_lifetime_jitter = pos 0;
  });
  connect = λ c. ok tt;
  split_port = λ addr. ok addr;
  localhost_url = λ scheme port path. scheme;
  migrate_schema = ok tt;
  migrate_river = ok tt;
  new_river_client = λ workers url. ok tt;
  get = λ url is_tls. ok 200;
}

server_runs : exists is_serving (run_serve (building_of environment command) serving).1 ≡ true
unfolding run_serve build_app building_of validate_settings from_command parse_transfer_limits
    parse_account_opening_limits parse_limits first_error check_transfer_limit is_supported new_pool
    new_smtp_mailer run_services start_service
server_runs = refl

server_runs_configured_example :
    Sound (λ t. 32) parse_url str_eq settings
    × ((table : List (String × CurrencyLimit)) × (settings.transfer_limits ≡ accepted table)
        × ((code : String) → LimitInRange (lookup no_limit table code)))
    × ((mailer : SmtpMailer (Unit {0})) × (set_mailer environment settings ≡ ok mailer))
server_runs_configured_example = server_runs_configured environment command serving server_runs
