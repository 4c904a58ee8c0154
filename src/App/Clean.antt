-- ===== src/App/Clean.antt =====
-- cmd/app/main.go: a run of the service that answers nil.
use simplebank.Config.Settings.{Settings}
use simplebank.App.{
  start_server, answered, interrupted, not_begun, after_pool, with_pool, close_after, Starting,
  build_app, serve_built, serve_parts, start_service, run_serve, Building, Errors, Serving, Answers,
  run_services, pool, listener, worker, Call, begins, answers, stops, serves,
}
use simplebank.Prelude.{◌++◌, ap, refl, ◌≡◌, Option, none, some, List, [], ◌∷◌}

abbrev service_calls : List Call
service_calls =
    begins listener
    ∷ answers listener []
    ∷ begins worker
    ∷ answers worker []
    ∷ serves
    ∷ stops worker []
    ∷ stops listener []
    ∷ []

-- All the calls of a run in which nothing fails.
abbrev pub clean_calls : List Call
clean_calls = begins pool ∷ answers pool [] ∷ (service_calls ++ (stops pool [] ∷ []))

abbrev scripted : Starting → Starting → Errors → Errors → Option Errors → Errors → Answers
scripted starting_listener starting_worker serve worker_stop worker_cancel listener_stop = record {
  listener_starting = starting_listener;
  worker_starting = starting_worker;
  serve = serve;
  worker_stop = worker_stop;
  worker_cancel = worker_cancel;
  listener_stop = listener_stop;
}

services_clean :
    (starting_listener starting_worker : Starting) (serve worker_stop : Errors)
    (worker_cancel : Option Errors) (listener_stop : Errors)
    → (run_services (
        scripted starting_listener starting_worker serve worker_stop worker_cancel listener_stop)).0
      ≡ []
    → (run_services (
        scripted starting_listener starting_worker serve worker_stop worker_cancel listener_stop)).1
      ≡ service_calls
unfolding run_services start_service
services_clean (not_begun e) w serve stop cancel lstop h = absurd (cc h)
services_clean (interrupted e stopped late) w serve stop cancel lstop h = absurd (cc h)
services_clean (answered (e ∷ es)) w serve stop cancel lstop h = absurd (cc h)
services_clean (answered []) (not_begun e) serve stop cancel lstop h = absurd (cc h)
services_clean (answered []) (interrupted e stopped late) serve stop cancel lstop h = absurd (cc h)
services_clean (answered []) (answered (e ∷ es)) serve stop cancel lstop h = absurd (cc h)
services_clean (answered []) (answered []) (e ∷ es) stop cancel lstop h = absurd (cc h)
services_clean (answered []) (answered []) [] (e ∷ es) none lstop h = absurd (cc h)
services_clean (answered []) (answered []) [] (e ∷ es) (some xs) lstop h = absurd (cc h)
services_clean (answered []) (answered []) [] [] cancel (e ∷ es) h = absurd (cc h)
services_clean (answered []) (answered []) [] [] cancel [] h = refl

run_services_clean : (a : Answers) → (run_services a).0 ≡ [] → (run_services a).1 ≡ service_calls
run_services_clean a =
    services_clean a.listener_starting a.worker_starting a.serve a.worker_stop a.worker_cancel
      a.listener_stop

serve_parts_clean :
    (c : Settings) (s : Serving) (es : Errors)
    → (serve_parts c s es).0 ≡ []
    → (serve_parts c s es).1 ≡ service_calls
serve_parts_clean c s [] h =
    run_services_clean (record s.answers { serve = start_server s.http c }) h
serve_parts_clean c s (e ∷ es) h = absurd (cc h)

closed_clean :
    (opened : List Call) (x : Errors × List Call)
    → (x.0 ≡ [] → x.1 ≡ service_calls)
    → (close_after opened x).0 ≡ []
    → (close_after opened x).1 ≡ opened ++ (service_calls ++ (stops pool [] ∷ []))
closed_clean opened (es, calls) clean h =
    ap (λ (calls : List Call). opened ++ (calls ++ (stops pool [] ∷ []))) (clean h)

pool_clean :
    (c : Settings) (s : Serving) (later : Errors)
    → (serve_built c s (with_pool later)).0 ≡ []
    → (serve_built c s (with_pool later)).1 ≡ clean_calls
pool_clean c s [] h =
    closed_clean (begins pool ∷ answers pool [] ∷ []) (serve_parts c s _) (serve_parts_clean c s _)
      h
pool_clean c s (e ∷ es) h = absurd (cc h)

built_clean :
    (b : Building) (s : Serving) (new_pool : Errors)
    → (serve_built b.settings s (after_pool b new_pool)).0 ≡ []
    → (serve_built b.settings s (after_pool b new_pool)).1 ≡ clean_calls
built_clean b s [] h = pool_clean b.settings s _ h
built_clean b s (e ∷ es) h = absurd (cc h)

-- If a run of the service answers nil, then nothing of it failed and it left nothing running: its
-- calls are exactly those in which the pool, the listener and the worker start and answer nil, the
-- HTTP server runs, the worker and the listener are each asked once to stop and answer nil, in this
-- order, and the pool is closed last. So a start that was interrupted, or a Stop that failed, even
-- where the cancel that follows it succeeds, is reported as an error.
pub nil_run_stops_all :
    (b : Building) (s : Serving) → (run_serve b s).0 ≡ [] → (run_serve b s).1 ≡ clean_calls
unfolding run_serve build_app
nil_run_stops_all b s = go b.validated
  where
    go :
        (v : Errors)
        → (serve_built b.settings s
            (elim v [ [] ↦ after_pool b b.new_pool | e ∷ es ↦ (e ∷ es, []) ])).0
          ≡ []
        → (serve_built b.settings s
            (elim v [ [] ↦ after_pool b b.new_pool | e ∷ es ↦ (e ∷ es, []) ])).1
          ≡ clean_calls
    go [] h = built_clean b s b.new_pool h
    go (e ∷ es) h = absurd (cc h)
