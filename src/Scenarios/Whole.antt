-- ===== src/Scenarios/Whole.antt =====
-- Runs of the whole master: a claim, a completion, ticks of the monitors and a scan.
use dark_stream.Common.{inl, pos, ◌≡◌, ◌*◌, refl, true, false, List, [], ◌∷◌, none, some}
use dark_stream.Models.{minute, second, pending}
use dark_stream.Lifecycle.{Inv, phase_in, running, done}
use dark_stream.Server.{codes, get, post, Credentials, missing, require_auth, authenticate_request}
use dark_stream.Server.Submit.{Paths}
use dark_stream.Service.{
  Config, Service, Event, run, request, check_health, check_failures, scan, sweep, next_job,
  report_completion, next_jobs, step, serve, serve_admitted, handle, handle_authenticated,
  paused_after, cancel, retry_one,
}
use dark_stream.Tracker.Rows.{find_job}
use dark_stream.Server.Limiter.{allow, allow_bucket, find_bucket, set_bucket, refill}
use dark_stream.Server.Assign.{get_next_job, get_next_jobs}
use dark_stream.Service.Pauses.{pause_queue_holds}
use dark_stream.Service.Traces.{run-Inv}
use dark_stream.Service.Finished.{finished_stays}
use dark_stream.Scenarios.Samples.{closed, row, mixed}
use dark_stream.Scenarios.Consistent.{closed-Inv, mixed-Inv}

abbrev open_paths : Paths
open_paths = record {
  cwd = none;
  allowed_dirs = codes "/" ∷ [];
  root_path = codes "/in";
  output_base = codes "/out";
  exists = λ p. true;
  digits = λ p. p;
  text = λ p. "id";
}

abbrev config : Config
config = record { api_key = "k"; paths = open_paths }

abbrev key : Credentials
key = record { authorization = "Bearer k"; api_key = "" }

abbrev master : Service
master = record { store = mixed; queue_paused = false; buckets = [] }

abbrev events : List Event
events =
    request "a" key 30 (next_job get "w2")
    ∷ request "a" key 40 (
        report_completion post
          (some (record { job_id = "low"; worker_id = "w2"; output_size = pos 1 })))
    ∷ check_failures (2 * minute)
    ∷ scan (row "new" pending 5 "" none none 0 ∷ [])
    ∷ check_health (λ used allowed. "job timed out") 0 (8000 * second)
    ∷ sweep (8000 * second)
    ∷ []

run-Inv_example : Inv (run config events master).store
run-Inv_example =
    run-Inv config events master (tt, (tt, (tt, ((refl, tt), (tt, (tt, tt)))))) mixed-Inv

abbrev closed_master : Service
closed_master = record { store = closed; queue_paused = false; buckets = [] }

abbrev troubles : List Event
troubles =
    request "a" key 30 (cancel post "ended")
    ∷ request "b" key 40 (retry_one post "ended")
    ∷ request "c" key 50 (next_job get "w2")
    ∷ check_failures (2 * minute)
    ∷ []

ended_phase : phase_in closed "ended" ≡ done
unfolding find_job
ended_phase = refl

finished_stays_example :
    phase_in (run config troubles closed_master).store "ended" ≡ phase_in closed "ended"
finished_stays_example =
    finished_stays config troubles closed_master "ended" (tt, (tt, (tt, (tt, tt))))
      (tt, (tt, (tt, (tt, tt)))) closed-Inv (inl ended_phase)

abbrev paused_master : Service
paused_master = record { store = mixed; queue_paused = true; buckets = [] }

abbrev while_paused : List Event
while_paused =
    request "a" key 30 (next_job get "w2")
    ∷ request "a" key 40 (next_jobs get "w1" missing)
    ∷ sweep (9 * second)
    ∷ []

still_running :
    phase_in (run config while_paused paused_master).store "running" ≡ running "w1" (some 10)
unfolding run step serve serve_admitted handle handle_authenticated require_auth
    authenticate_request allow allow_bucket find_bucket set_bucket refill paused_after get_next_job
    get_next_jobs find_job
still_running = refl

pause_queue_holds_example : phase_in mixed "running" ≡ running "w1" (some 10)
pause_queue_holds_example =
    pause_queue_holds config while_paused paused_master "running" "w1" (some 10)
      (tt, (tt, (tt, tt))) (tt, (tt, (tt, tt))) refl mixed-Inv still_running
