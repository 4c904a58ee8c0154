-- ===== src/App.antt =====
-- cmd/app/main.go: the assembly of the service, and the order in which its parts start and stop.
-- An error or nil is the list of the errors that were joined, empty for nil. What a part answers
-- is a script; each function also returns the calls that it made, oldest first.
pub mod Bracketed
pub mod Clean
pub mod Startup
use simplebank.Config.Settings.{Settings}
use simplebank.Errors.{Error, Result, ok, err, foreign}
use simplebank.Prelude.{
  ℤ, pos, ltb_ℤ, String, Bool, true, false, not, Option, none, some, List, [], ◌∷◌, ◌++◌, str_eq,
  if◌then◌else◌,
}

abbrev pub Errors : Type 0
Errors = List Error

abbrev pub is_nil : Errors → Bool
is_nil [] = true
is_nil (e ∷ es) = false

-- The parts that start and stop. The start of the pool is `newPool`, and its stop is `Close`,
-- which answers nothing.
pub data Part : Type 0 where
  pool listener worker : Part

-- The start of a part was begun, for a service by the goroutine that calls Start, or it answered;
-- the part was asked to stop, or to cancel its jobs and stop, with the answer; or the HTTP server
-- was run.
pub data Call : Type 0 where
  begins : Part → Call
  answers : Part → Errors → Call
  stops : Part → Errors → Call
  cancels : Part → Errors → Call
  serves : Call

-- How `startService` went: the context was done before the start, or the start answered, or the
-- context was done first, with what Stop answers and the start answers after it, if it does
-- within the time. An interrupted start runs beside its Stop, which may be the first of the two to
-- reach the service: it may then answer nil, and the start may succeed after it.
pub data Starting : Type 0 where
  not_begun : Error → Starting
  answered : Errors → Starting
  interrupted : Error → Errors → Option Errors → Starting

abbrev pub late_errors : Option Errors → Errors
late_errors none = []
late_errors (some es) = es

abbrev pub late_answers : Part → Option Errors → List Call
late_answers part none = []
late_answers part (some es) = answers part es ∷ []

unfoldable pub start_service : Part → Starting → Errors × List Call
start_service part (not_begun e) = (e ∷ [], [])
start_service part (answered es) = (es, begins part ∷ answers part es ∷ [])
start_service part (interrupted e stop late) =
    (e ∷ (stop ++ late_errors late), begins part ∷ stops part stop ∷ late_answers part late)

-- What the services answer: the starts, the server, Stop of the worker, StopAndCancel of a worker
-- that has it, and Stop of the listener.
pub record Answers : Type 0 where
  pub listener_starting : Starting
  pub worker_starting : Starting
  pub serve : Errors
  pub worker_stop : Errors
  pub worker_cancel : Option Errors
  pub listener_stop : Errors

-- A worker that did not stop in time is cancelled, if it can be.
abbrev pub stop_worker : Answers → Errors × List Call
stop_worker a =
    if is_nil a.worker_stop then (a.worker_stop, stops worker [] ∷ []) else elim a.worker_cancel [
      | none ↦ (a.worker_stop, stops worker a.worker_stop ∷ [])
      | some es ↦ (a.worker_stop ++ es, stops worker a.worker_stop ∷ cancels worker es ∷ [])
    ]

abbrev pub with_both : Answers → Errors × List Call
with_both a =
    let (es, calls) = stop_worker a in
    (a.serve ++ (es ++ a.listener_stop), serves ∷ (calls ++ (stops listener a.listener_stop ∷ [])))

-- What follows a start: the error, or the rest with the calls before it.
abbrev pub with_listener : Answers → Errors × List Call → Errors × List Call
with_listener a ([], calls) = let (es, more) = with_both a in (es, calls ++ more)
with_listener a (e ∷ es, calls) =
    ((e ∷ es) ++ a.listener_stop, calls ++ (stops listener a.listener_stop ∷ []))

abbrev pub if_listening : Answers → Errors × List Call → Errors × List Call
if_listening a ([], calls) =
    let (es, more) = with_listener a (start_service worker a.worker_starting) in (es, calls ++ more)
if_listening a (e ∷ es, calls) = (e ∷ es, calls)

unfoldable pub run_services : Answers → Errors × List Call
unfolding start_service
run_services a = if_listening a (start_service listener a.listener_starting)

-- What the assembly answers, in its order. `loopback_url` makes the address of a scheme where no
-- public address is set.
pub record Building : Type 0 where
  pub settings : Settings
  pub validated : Errors
  pub new_pool : Errors
  pub migrations : Errors
  pub mailer : Errors
  pub loopback_url : String → Result String
  pub client : String → Errors

abbrev pub loopback_scheme : Settings → String
loopback_scheme c = if str_eq c.tls_cert_file "" then "http" else "https"

abbrev pub base_url : Building → Result String
base_url b =
    if str_eq b.settings.public_base_url ""
    then b.loopback_url (loopback_scheme b.settings)
    else ok b.settings.public_base_url

abbrev pub with_url : (String → Errors) → Result String → Errors
with_url client (ok url) = client url
with_url client (err e) = e ∷ []

abbrev pub or_next : Errors → Errors → Errors
or_next [] next = next
or_next (e ∷ es) next = e ∷ es

-- The pool is closed if what follows it fails.
abbrev pub with_pool : Errors → Errors × List Call
with_pool [] = ([], begins pool ∷ answers pool [] ∷ [])
with_pool (e ∷ es) = (e ∷ es, begins pool ∷ answers pool [] ∷ stops pool [] ∷ [])

abbrev pub after_pool : Building → Errors → Errors × List Call
after_pool b [] =
    with_pool (or_next b.migrations (or_next b.mailer (with_url b.client (base_url b))))
after_pool b (e ∷ es) = (e ∷ es, begins pool ∷ answers pool (e ∷ es) ∷ [])

unfoldable pub build_app : Building → Errors × List Call
build_app b = elim b.validated [ [] ↦ after_pool b b.new_pool | e ∷ es ↦ (e ∷ es, []) ]

-- What reading a file answers, and how serving ended: without an error, with
-- `http.ErrServerClosed`, or with another error.
pub data Served : Type 0 where
  ended server_closed : Served
  broke : Error → Served

pub record Http : Type 0 where
  pub read_file : String → Result String
  pub start : String → Served
  pub start_tls : String → String → String → Served

abbrev pub served_errors : Served → Errors
served_errors (broke e) = e ∷ []
served_errors _ = []

abbrev pub start_with : Http → Settings → Result String → Result String → Errors
start_with http c (err e) key = e ∷ []
start_with http c (ok cert) (err e) = e ∷ []
start_with http c (ok cert) (ok key) = served_errors (http.start_tls c.http_addr cert key)

-- TLS with a certificate, and plain HTTP without one.
unfoldable pub start_server : Http → Settings → Errors
start_server http c =
    if str_eq c.tls_cert_file ""
    then served_errors (http.start c.http_addr)
    else start_with http c (http.read_file c.tls_cert_file) (http.read_file c.tls_key_file)

-- The token maker, the server and the embedded frontend, which are made once the pool is open.
pub record Serving : Type 0 where
  pub maker : Errors
  pub server : Errors
  pub dist : Errors
  pub http : Http
  pub answers : Answers

abbrev pub serve_parts : Settings → Serving → Errors → Errors × List Call
serve_parts c s [] = run_services (record s.answers { serve = start_server s.http c })
serve_parts c s (e ∷ es) = (e ∷ es, [])

-- The deferred close of the pool is the last call.
abbrev pub close_after : List Call → Errors × List Call → Errors × List Call
close_after opened (es, calls) = (es, opened ++ (calls ++ (stops pool [] ∷ [])))

abbrev pub serve_built : Settings → Serving → Errors × List Call → Errors × List Call
serve_built c s ([], opened) =
    close_after opened (serve_parts c s (or_next s.maker (or_next s.server s.dist)))
serve_built c s (e ∷ es, calls) = (e ∷ es, calls)

unfoldable pub run_serve : Building → Serving → Errors × List Call
unfolding build_app run_services start_server
run_serve b s = serve_built b.settings s (build_app b)
