-- ===== src/Service.antt =====
-- The master as a whole: the database, the pause of the queue and the buckets of the rate limiter,
-- and what happens to them one event after another. Requests come through the middlewares in the order in which
-- http.go's `New` puts them: the rate limiter, then the key, then the handler.
pub mod Traces
pub mod Pauses
pub mod Finished
use dark_stream.Common.{
  ◌≡◌, ℕ, Bool, true, false, List, [], ◌∷◌, Option, none, some, String, if◌then◌else◌, All,
}
use dark_stream.Server.Upload.{Submission, upload_video}
use dark_stream.Server.Settings.{report_job_progress, ask_job_progress, handle_worker_settings}
use dark_stream.Models.{JobProgress, WorkerSettings, Job, WorkerHeartbeat, pending}
use dark_stream.Tracker.{Store, Result, ok, err, M, pure}
use dark_stream.Coordinator.{monitor_worker_health, monitor_failed_jobs, insert_jobs, periodic_scan}
use dark_stream.Server.{
  Method, get, post, method_eq, Response, empty, status_only, refuse, answer, only, Param,
  Credentials, authenticate_request, require_auth,
}
use dark_stream.Server.Assign.{get_next_job, get_next_jobs}
use dark_stream.Server.Reports.{
  CompleteRequest, job_complete, FailRequest, job_failed, worker_heartbeat,
}
use dark_stream.Server.Operator.{
  retry_failed_jobs, retry_job, requeue_job, PriorityRequest, update_priority, prune, get_job,
  list_jobs,
}
use dark_stream.Server.Cancel.{cancel_job, cancel_jobs}
use dark_stream.Server.Fleet.{pause_worker, resume_worker, handle_worker_admin}
use dark_stream.Server.Submit.{Paths, SubmitRequest, submit_job}
use dark_stream.Server.Limiter.{Buckets, allow, cleanup, request_limit, request_rate}

-- The routes that change jobs, workers, progress or settings, and those that read a job. Left out are the download of
-- a source, whose answer is a `Reply`, and the listing of workers, the status, the statistics, the streams and the
-- global configuration, which read only or change nothing of the database.
pub data Request : Type 0 where
  next_job : Method → String → Request
  next_jobs : Method → String → Param → Request
  report_completion : Method → Option CompleteRequest → Request
  report_failure : Method → Option FailRequest → Request
  heartbeat : Method → Option WorkerHeartbeat → Request
  pause : Method → String → Request
  resume : Method → String → Request
  worker_admin : Method → String → Request
  pause_queue : Method → Request
  resume_queue : Method → Request
  retry_failed : Method → Param → Request
  retry_one : Method → String → Request
  requeue_one : Method → String → Request
  list : Method → String → Param → Request
  job : Method → String → Option SubmitRequest → Request
  set_priority : Method → PriorityRequest → Request
  cancel : Method → String → Request
  cancel_many : Method → String → Param → Request
  prune_jobs : Method → String → Request
  upload : Submission → Method → String → Request
  progress_report : Method → Option JobProgress → Request
  progress_query : Method → String → Request
  settings_request : Method → WorkerSettings → String → Option WorkerSettings → Request

pub record Config : Type 0 where
  pub api_key : String
  pub paths : Paths

-- `HandleJob`: a GET reads the job, a POST submits one.
unfoldable pub handle_job : Paths → Method → String → Option SubmitRequest → ℕ → M Response
handle_job paths get id req now = get_job get id
handle_job paths post id req now = submit_job paths req now
handle_job paths _ id req now = refuse 405

-- The handlers behind `authMiddleware`.
unfoldable pub handle_authenticated : Config → Credentials → Bool → ℕ → Request → M Response
handle_authenticated cfg c paused now (next_job m worker) = get_next_job m paused worker now
handle_authenticated cfg c paused now (next_jobs m worker limit) =
    get_next_jobs m paused worker limit now
handle_authenticated cfg c paused now (report_completion m req) = job_complete m req now
handle_authenticated cfg c paused now (report_failure m req) = job_failed m req now
handle_authenticated cfg c paused now (heartbeat m hb) = worker_heartbeat m hb now
handle_authenticated cfg c paused now (pause m worker) = pause_worker m worker
handle_authenticated cfg c paused now (resume m worker) = resume_worker m worker
handle_authenticated cfg c paused now (worker_admin m worker) = handle_worker_admin m worker
handle_authenticated cfg c paused now (pause_queue m) = only post m (answer empty [])
handle_authenticated cfg c paused now (resume_queue m) = only post m (answer empty [])
handle_authenticated cfg c paused now (retry_failed m limit) = retry_failed_jobs m limit
handle_authenticated cfg c paused now (retry_one m id) = retry_job m id
handle_authenticated cfg c paused now (requeue_one m id) = requeue_job m cfg.api_key c id
handle_authenticated cfg c paused now (list m status limit) = list_jobs m status limit
handle_authenticated cfg c paused now (job m id req) = handle_job cfg.paths m id req now
handle_authenticated cfg c paused now (set_priority m req) = update_priority m req
handle_authenticated cfg c paused now (cancel m id) = cancel_job m cfg.api_key c id now
handle_authenticated cfg c paused now (cancel_many m status limit) =
    cancel_jobs m cfg.api_key c status limit now
handle_authenticated cfg c paused now (prune_jobs m status) = prune m status
handle_authenticated cfg c paused now (upload u m id) = upload_video u m id now
handle_authenticated cfg c paused now (progress_report m body) = report_job_progress m body now
handle_authenticated cfg c paused now (progress_query m id) = ask_job_progress m id
handle_authenticated cfg c paused now (settings_request m global worker body) =
    handle_worker_settings cfg.api_key c m global worker body

-- The two cancelling routes and that of the settings have no `authMiddleware`: they check the key themselves.
abbrev pub checks_key_itself : Request → Bool
checks_key_itself (cancel m id) = true
checks_key_itself (cancel_many m status limit) = true
checks_key_itself (settings_request m global worker body) = true
checks_key_itself _ = false

unfoldable pub handle : Config → Credentials → Bool → ℕ → Request → M Response
handle cfg c paused now req =
    if checks_key_itself req
    then handle_authenticated cfg c paused now req
    else require_auth cfg.api_key c (handle_authenticated cfg c paused now req)

-- `PauseQueue` and `ResumeQueue` set the flag of the server.
abbrev pub switched : Request → Bool → Bool
switched (pause_queue post) paused = true
switched (resume_queue post) paused = false
switched _ paused = paused

unfoldable pub paused_after : Config → Credentials → Request → Bool → Bool
paused_after cfg c req paused =
    if authenticate_request cfg.api_key c then switched req paused else paused

pub record Service : Type 0 where
  pub store : Store
  pub queue_paused : Bool
  pub buckets : Buckets

unfoldable pub serve_admitted :
    Config → Credentials → ℕ → Request → Service → Result Response × Service
serve_admitted cfg c now req s =
    let r = handle cfg c s.queue_paused now req s.store in
    (r.0, record s { store = r.1; queue_paused = paused_after cfg c req s.queue_paused })

unfoldable pub serve :
    Config → String → Credentials → ℕ → Request → Service → Result Response × Service
serve cfg ip c now req s =
    let admission = allow ip request_limit request_rate now s.buckets in
    let admitted = record s { buckets = admission.1 } in
    let answered = serve_admitted cfg c now req admitted in
    if admission.0 then answered else (ok (status_only 429), admitted)

-- What happens in the master: requests, and the ticks of the background loops.
pub data Event : Type 0 where
  request : String → Credentials → ℕ → Request → Event
  check_health : (ℕ → ℕ → String) → ℕ → ℕ → Event
  check_failures : ℕ → Event
  scan : List Job → Event
  sweep : ℕ → Event

abbrev pub on_store : {A : Type 0} → M A → Service → Service
on_store m s = record s { store = (m s.store).1 }

unfoldable pub step : Config → Event → Service → Service
step cfg (request ip c now req) s = (serve cfg ip c now req s).1
step cfg (check_health message timeout now) s =
    on_store (monitor_worker_health message timeout now) s
step cfg (check_failures now) s = on_store (monitor_failed_jobs now) s
step cfg (scan jobs) s = on_store (periodic_scan jobs) s
step cfg (sweep now) s = record s { buckets = cleanup now s.buckets }

unfoldable pub run : Config → List Event → Service → Service
run cfg [] s = s
run cfg (e ∷ es) s = run cfg es (step cfg e s)

-- A scan finds new jobs only, and these are pending.
abbrev pub IsScan : Event → Type 0
IsScan (scan jobs) = All (λ j. j.status ≡ pending) jobs
IsScan _ = Unit
