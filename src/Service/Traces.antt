-- ===== src/Service/Traces.antt =====
-- Whatever happens in the master, the jobs table stays in order, and each event moves jobs by the powers it gives only.
use dark_stream.Common.{
  not, true, false, refl, ◌+◌, Option, ℕ, Bool, List, [], ◌∷◌, String, All, Bool-cases, inl, inr,
  ◌≡◌,
}
use dark_stream.Models.{Job, pending}
use dark_stream.Tracker.{M}
use dark_stream.Tracker.Jobs.{create_job}
use dark_stream.Tracker.Respects.{pure-Respects, >>=-Respects, try_bind-Respects, if-Respects}
use dark_stream.Coordinator.{added, rejected, insert_jobs, periodic_scan}
use dark_stream.Coordinator.Frames.{refresh_queue_depth-Respects}
use dark_stream.Coordinator.Monitors.{monitor_worker_health-Lawful, monitor_failed_jobs-Lawful}
use dark_stream.Lifecycle.{
  Phase, MonitorEdge, release, expire, retry, Edge, Powers, give_back, try_again, break, Reach,
  here, next, Inv,
}
use dark_stream.Lifecycle.Lawful.{edges, Lawful, Moves, Moves-same}
use dark_stream.Lifecycle.Population.{create_job-Lawful}
use dark_stream.Server.{Method, get, post, put, delete, other, Credentials, empty}
use dark_stream.Server.Lawful.{
  refuse-Respects, answer-Respects, only-Respects, require_auth-Respects,
}
use dark_stream.Server.Lawful.Assign.{get_next_job-Lawful, get_next_jobs-Lawful}
use dark_stream.Server.Lawful.Reports.{
  job_complete-Lawful, job_failed-Lawful, worker_heartbeat-Lawful,
}
use dark_stream.Server.Lawful.Operator.{
  retry_failed_jobs-Lawful, retry_job-Lawful, requeue_job-Lawful, update_priority-Lawful,
  prune-Lawful, get_job-Lawful, list_jobs-Lawful,
}
use dark_stream.Server.Lawful.Cancel.{
  cancel_job-Lawful, cancel_jobs-Lawful, pause_worker-Lawful, resume_worker-Lawful,
  handle_worker_admin-Lawful,
}
use dark_stream.Server.Lawful.Submit.{submit_job-Lawful}
use dark_stream.Server.Lawful.Uploads.{upload_video-Lawful}
use dark_stream.Server.Lawful.Settings.{
  report_job_progress-Lawful, ask_job_progress-Lawful, handle_worker_settings-Lawful,
}
use dark_stream.Server.Submit.{Paths, SubmitRequest}
use dark_stream.Server.Limiter.{allow, request_limit, request_rate}
use dark_stream.Service.{
  upload, progress_report, progress_query, settings_request, requeue_one, report_completion,
  prune_jobs, cancel_many, cancel, set_priority, job, list, retry_one, retry_failed, resume_queue,
  pause_queue, worker_admin, resume, pause, heartbeat, sweep, scan, report_failure, check_failures,
  check_health, next_jobs, next_job, request, Request, Config, handle_job, handle_authenticated,
  checks_key_itself, handle, Service, serve_admitted, serve, Event, step, run, IsScan,
}

handle_job-Lawful :
    {powers : Powers}
    → (paths : Paths) (m : Method) (id : String) (req : Option SubmitRequest) (now : ℕ)
    → Lawful (Edge powers) (handle_job paths m id req now)
unfolding handle_job
handle_job-Lawful paths get id req now = get_job-Lawful get id
handle_job-Lawful paths post id req now = submit_job-Lawful paths req now
handle_job-Lawful paths put id req now = refuse-Respects edges 405
handle_job-Lawful paths delete id req now = refuse-Respects edges 405
handle_job-Lawful paths other id req now = refuse-Respects edges 405

-- Only a request to requeue may bring a finished job back.
abbrev pub reopens : Request → Bool
reopens (requeue_one m id) = true
reopens _ = false

-- Only a request to prune may delete rows.
abbrev pub prunes : Request → Bool
prunes (prune_jobs m status) = true
prunes _ = false

-- Jobs are handed out only while the queue is not paused.
abbrev pub powers_of : Bool → Event → Powers
powers_of paused (request ip c now req) = record {
  claims = not paused;
  reopens = reopens req;
  prunes = prunes req;
}
powers_of paused _ = record { claims = not paused; reopens = false; prunes = false }

abbrev given : Bool → Request → Powers
given paused req = record { claims = not paused; reopens = reopens req; prunes = prunes req }

not_paused : (paused : Bool) → paused ≡ false → not paused ≡ true
not_paused paused e = rw e refl

module _ (cfg : Config) (c : Credentials) (paused : Bool) (now : ℕ) where
  handle_authenticated-Lawful :
      (req : Request) → Lawful (Edge (given paused req)) (handle_authenticated cfg c paused now req)
  unfolding handle_authenticated
  handle_authenticated-Lawful (next_job m worker) =
      get_next_job-Lawful m paused (not_paused paused) worker now
  handle_authenticated-Lawful (next_jobs m worker limit) =
      get_next_jobs-Lawful m paused (not_paused paused) worker limit now
  handle_authenticated-Lawful (report_completion m req) = job_complete-Lawful m req now
  handle_authenticated-Lawful (report_failure m req) = job_failed-Lawful m req now
  handle_authenticated-Lawful (heartbeat m hb) = worker_heartbeat-Lawful m hb now
  handle_authenticated-Lawful (pause m worker) = pause_worker-Lawful m worker
  handle_authenticated-Lawful (resume m worker) = resume_worker-Lawful m worker
  handle_authenticated-Lawful (worker_admin m worker) = handle_worker_admin-Lawful m worker
  handle_authenticated-Lawful (pause_queue m) =
      only-Respects edges post m _ (answer-Respects edges empty [])
  handle_authenticated-Lawful (resume_queue m) =
      only-Respects edges post m _ (answer-Respects edges empty [])
  handle_authenticated-Lawful (retry_failed m limit) = retry_failed_jobs-Lawful m limit
  handle_authenticated-Lawful (retry_one m id) = retry_job-Lawful m id
  handle_authenticated-Lawful (requeue_one m id) = requeue_job-Lawful refl m cfg.api_key c id
  handle_authenticated-Lawful (list m status limit) = list_jobs-Lawful m status limit
  handle_authenticated-Lawful (job m id req) = handle_job-Lawful cfg.paths m id req now
  handle_authenticated-Lawful (set_priority m req) = update_priority-Lawful m req
  handle_authenticated-Lawful (cancel m id) = cancel_job-Lawful m cfg.api_key c id now
  handle_authenticated-Lawful (cancel_many m status limit) =
      cancel_jobs-Lawful m cfg.api_key c status limit now
  handle_authenticated-Lawful (prune_jobs m status) = prune-Lawful refl m status
  handle_authenticated-Lawful (upload u m id) = upload_video-Lawful u m id now
  handle_authenticated-Lawful (progress_report m body) = report_job_progress-Lawful m body now
  handle_authenticated-Lawful (progress_query m id) = ask_job_progress-Lawful m id
  handle_authenticated-Lawful (settings_request m global worker body) =
      handle_worker_settings-Lawful cfg.api_key c m global worker body

  pub handle-Lawful :
      (req : Request) → Lawful (Edge (given paused req)) (handle cfg c paused now req)
  unfolding handle
  handle-Lawful req =
      if-Respects edges (checks_key_itself req) _ _ (handle_authenticated-Lawful req)
        (require_auth-Respects edges cfg.api_key c _ (handle_authenticated-Lawful req))

-- The monitors' moves are moves of the program.
monitor_edge : {powers : Powers} → {p q : Phase} → MonitorEdge p q → (Edge powers) p q
monitor_edge release = give_back
monitor_edge expire = break
monitor_edge retry = try_again

monitor_reach : {powers : Powers} → {p q : Phase} → Reach MonitorEdge p q → Reach (Edge powers) p q
monitor_reach here = here
monitor_reach (next r e) = next (monitor_reach r) (monitor_edge e)

monitors :
    {powers : Powers} → {A : Type 0} (m : M A) → Lawful MonitorEdge m → Lawful (Edge powers) m
monitors m h = record {
  apply = λ s v.
      let a = h.apply s v in record { inv = a.inv; reach = λ id. monitor_reach (a.reach id) };
}

insert_jobs-Lawful :
    {powers : Powers}
    → (js : List Job) → All (λ j. j.status ≡ pending) js
    → Lawful (Edge powers) (insert_jobs js)
unfolding insert_jobs
insert_jobs-Lawful [] h = pure-Respects edges _
insert_jobs-Lawful (j ∷ js) h =
    try_bind-Respects edges (create_job j) _ (create_job-Lawful j h.0) (λ r.
      >>=-Respects edges (insert_jobs js) _ (insert_jobs-Lawful js h.1)
        (λ rest. pure-Respects edges (added r + rest.0, rejected r + rest.1)))

periodic_scan-Lawful :
    {powers : Powers}
    → (js : List Job) → All (λ j. j.status ≡ pending) js
    → Lawful (Edge powers) (periodic_scan js)
unfolding periodic_scan
periodic_scan-Lawful js h =
    >>=-Respects edges (insert_jobs js) _ (insert_jobs-Lawful js h) (λ counts.
      if-Respects edges _ _ _ (refresh_queue_depth-Respects edges) (pure-Respects edges []))

serve-Moves :
    (cfg : Config) (ip : String) (c : Credentials) (now : ℕ) (req : Request) (s : Service)
    → Inv s.store
    → Moves (Edge (given s.queue_paused req)) s.store (serve cfg ip c now req s).1.store
unfolding serve serve_admitted
serve-Moves cfg ip c now req s v =
    elim (Bool-cases (allow ip request_limit request_rate now s.buckets).0) [
      | inl e ↦ rw e ((handle-Lawful cfg c s.queue_paused now req).apply s.store v)
      | inr e ↦ rw e (Moves-same (Edge _) s.store s.store v refl)
    ]

pub step-Moves :
    (cfg : Config) (e : Event) (s : Service)
    → IsScan e
    → Inv s.store
    → Moves (Edge (powers_of s.queue_paused e)) s.store (step cfg e s).store
unfolding step
step-Moves cfg (request ip c now req) s h v = serve-Moves cfg ip c now req s v
step-Moves cfg (check_health message timeout now) s h v =
    (monitors _ (monitor_worker_health-Lawful message timeout now)).apply s.store v
step-Moves cfg (check_failures now) s h v =
    (monitors _ (monitor_failed_jobs-Lawful now)).apply s.store v
step-Moves cfg (scan jobs) s h v = (periodic_scan-Lawful jobs h).apply s.store v
step-Moves cfg (sweep now) s h v = Moves-same (Edge _) s.store s.store v refl

-- Take any sequence of requests, well formed or not and by whomever, of ticks of the monitors and scans that find
-- pending jobs, with any faults of the database. From a store that satisfies the invariant it leads to one that
-- does: no two rows have the same identifier, a job in the queue has no worker, no times and no error, a running one has a
-- start and neither end nor error, and a finished one has an end.
pub run-Inv :
    (cfg : Config) (es : List Event) (s : Service)
    → All IsScan es
    → Inv s.store
    → Inv (run cfg es s).store
unfolding run
run-Inv cfg [] s h v = v
run-Inv cfg (e ∷ es) s h v = run-Inv cfg es (step cfg e s) h.1 (step-Moves cfg e s h.0 v).inv
