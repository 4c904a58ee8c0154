-- ===== src/App/Bracketed.antt =====
-- cmd/app/main.go: the order of the calls.
use simplebank.Config.Settings.{Settings}
use simplebank.App.{
  start_server, answered, interrupted, not_begun, after_pool, with_pool, close_after, Starting,
  build_app, serve_built, serve_parts, start_service, run_serve, Building, Errors, Serving, Answers,
  run_services, Part, pool, listener, worker, Call, begins, answers, stops, cancels, serves,
}
use simplebank.Prelude.{
  ◌++◌, ap, refl, ◌∙◌, ◌≡◌, if◌then◌else◌, Bool, true, false, Option, none, some, List, [], ◌∷◌,
}

-- A part whose start was begun, and whether the start has answered nil.
pub record Begun : Type 0 where
  pub part : Part
  pub is_up : Bool

abbrev same_part : Part → Part → Bool
same_part pool pool = true
same_part listener listener = true
same_part worker worker = true
same_part _ _ = false

-- The start of a part that was asked to stop before may answer late, which is no news of the
-- others.
abbrev hear : Part → Errors → List Begun → List Begun
hear part es [] = []
hear part [] (top ∷ rest) =
    if same_part part top.part then record top { is_up = true } ∷ rest else top ∷ rest
hear part (e ∷ es) (top ∷ rest) = if same_part part top.part then rest else top ∷ rest

abbrev stop_top : Part → List Begun → Option (List Begun)
stop_top part [] = none
stop_top part (top ∷ rest) = if same_part part top.part then some rest else none

abbrev up : Part → Begun
up part = record { part = part; is_up = true }

abbrev are_up : Part → Part → Part → List Begun → Bool
are_up p q r (x ∷ y ∷ z ∷ []) =
    if same_part p x.part
    then if same_part q y.part
      then if same_part r z.part
        then if x.is_up then if y.is_up then z.is_up else false else false
        else false
      else false
    else false
are_up p q r _ = false

-- The parts that were begun, did not fail to start, and were not asked to stop, the last first,
-- where the calls keep to their order: what is asked to stop is the last of these, and the server
-- runs while they are the pool and the two services, and the start of each has answered nil.
abbrev do_call : Call → List Begun → Option (List Begun)
do_call (begins part) begun = some (record { part = part; is_up = false } ∷ begun)
do_call (answers part es) begun = some (hear part es begun)
do_call (stops part es) begun = stop_top part begun
do_call (cancels part es) begun = some begun
do_call serves begun = if are_up worker listener pool begun then some begun else none

abbrev go_on : (List Begun → Option (List Begun)) → Option (List Begun) → Option (List Begun)
go_on rest none = none
go_on rest (some begun) = rest begun

abbrev pub left_after : List Call → List Begun → Option (List Begun)
left_after [] begun = some begun
left_after (call ∷ calls) begun = go_on (left_after calls) (do_call call begun)

go_on_twice :
    (f g h : List Begun → Option (List Begun))
    → ((begun : List Begun) → f begun ≡ go_on g (h begun))
    → (r : Option (List Begun)) → go_on f r ≡ go_on g (go_on h r)
go_on_twice f g h e none = refl
go_on_twice f g h e (some begun) = e begun

left_after-append :
    (xs ys : List Call) (begun : List Begun)
    → left_after (xs ++ ys) begun ≡ go_on (left_after ys) (left_after xs begun)
left_after-append [] ys begun = refl
left_after-append (x ∷ xs) ys begun =
    go_on_twice (left_after (xs ++ ys)) (left_after ys) (left_after xs)
      (λ begun. left_after-append xs ys begun) (do_call x begun)

-- The services, started and stopped above the pool.
services_stop :
    (starting_listener starting_worker : Starting) (serve worker_stop : Errors)
    (worker_cancel : Option Errors) (listener_stop : Errors)
    → left_after
        (run_services (record {
          listener_starting = starting_listener;
          worker_starting = starting_worker;
          serve = serve;
          worker_stop = worker_stop;
          worker_cancel = worker_cancel;
          listener_stop = listener_stop;
        })).1
        (up pool ∷ [])
      ≡ some (up pool ∷ [])
unfolding run_services start_service
services_stop (not_begun e) w serve stop cancel lstop = refl
services_stop (interrupted e stopped none) w serve stop cancel lstop = refl
services_stop (interrupted e stopped (some [])) w serve stop cancel lstop = refl
services_stop (interrupted e stopped (some (x ∷ xs))) w serve stop cancel lstop = refl
services_stop (answered (e ∷ es)) w serve stop cancel lstop = refl
services_stop (answered []) (not_begun e) serve stop cancel lstop = refl
services_stop (answered []) (interrupted e stopped none) serve stop cancel lstop = refl
services_stop (answered []) (interrupted e stopped (some [])) serve stop cancel lstop = refl
services_stop (answered []) (interrupted e stopped (some (x ∷ xs))) serve stop cancel lstop = refl
services_stop (answered []) (answered (e ∷ es)) serve stop cancel lstop = refl
services_stop (answered []) (answered []) serve [] cancel lstop = refl
services_stop (answered []) (answered []) serve (e ∷ es) none lstop = refl
services_stop (answered []) (answered []) serve (e ∷ es) (some xs) lstop = refl

run_services_stop :
    (a : Answers) → left_after (run_services a).1 (up pool ∷ []) ≡ some (up pool ∷ [])
run_services_stop a =
    services_stop a.listener_starting a.worker_starting a.serve a.worker_stop a.worker_cancel
      a.listener_stop

serve_parts_stop :
    (c : Settings) (s : Serving) (es : Errors)
    → left_after (serve_parts c s es).1 (up pool ∷ []) ≡ some (up pool ∷ [])
serve_parts_stop c s [] = run_services_stop (record s.answers { serve = start_server s.http c })
serve_parts_stop c s (e ∷ es) = refl

-- What the pool was opened for, and the close of the pool.
closed_last :
    (x : Errors × List Call)
    → left_after x.1 (up pool ∷ []) ≡ some (up pool ∷ [])
    → left_after (close_after (begins pool ∷ answers pool [] ∷ []) x).1 [] ≡ some []
closed_last (es, calls) h =
    left_after-append calls (stops pool [] ∷ []) (up pool ∷ [])
    ∙ ap (go_on (left_after (stops pool [] ∷ []))) h

pool_served :
    (c : Settings) (s : Serving) (later : Errors)
    → left_after (serve_built c s (with_pool later)).1 [] ≡ some []
pool_served c s [] = closed_last (serve_parts c s _) (serve_parts_stop c s _)
pool_served c s (e ∷ es) = refl

built_served :
    (b : Building) (s : Serving) (new_pool : Errors)
    → left_after (serve_built b.settings s (after_pool b new_pool)).1 [] ≡ some []
built_served b s [] = pool_served b.settings s _
built_served b s (e ∷ es) = refl

-- Whatever fails or is interrupted, each of the pool, the listener and the worker whose start was
-- begun either fails to start, or is asked to stop, once, in the reverse order of the starts: on
-- every run, what is asked to stop is the part that was begun last of those that neither failed
-- nor were asked before, the HTTP server runs only after all three have started and before any is
-- asked to stop, and at the end none is left. That a part which was asked has stopped is not
-- stated: its Stop may fail, and a start that was interrupted may succeed after its Stop.
pub run_serve_stops : (b : Building) (s : Serving) → left_after (run_serve b s).1 [] ≡ some []
unfolding run_serve build_app
run_serve_stops b s = go b.validated
  where
    go :
        (v : Errors)
        → left_after
            (serve_built b.settings s
              (elim v [ [] ↦ after_pool b b.new_pool | e ∷ es ↦ (e ∷ es, []) ])).1
            []
          ≡ some []
    go [] = built_served b s b.new_pool
    go (e ∷ es) = refl
