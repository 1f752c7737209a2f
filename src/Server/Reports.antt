-- ===== src/Server/Reports.antt =====
-- http.go: what workers report, `JobComplete`, `JobFailed` and `WorkerHeartbeat`. A request body that
-- is no JSON of the expected form is `none`.
use dark_stream.Common.{
  ℤ, ℕ, Bool, true, false, List, [], ◌∷◌, ◌++◌, Option, none, some, String, if◌then◌else◌, str_eq,
  length, ◌-◌,
}
use dark_stream.Models.{Job, WorkerHeartbeat}
use dark_stream.Metrics.{
  Effect, notify, record_completed, record_failed, record_finished, record_heartbeat,
  set_worker_counts,
}
use dark_stream.Tracker.{Result, ok, err, M, pure, ◌>>=◌, try}
use dark_stream.Tracker.Jobs.{mark_job_completed, mark_job_failed}
use dark_stream.Tracker.Lookup.{get_job_by_id}
use dark_stream.Tracker.Workers.{update_worker_heartbeat, get_workers, get_active_workers}
use dark_stream.Server.{Method, post, empty, Response, refuse, answer, only}

-- The webhook gets the row as it is after the update, if it can be read.
abbrev pub notice : String → Result Job → List Effect
notice event (ok j) = notify event j ∷ []
notice event (err _) = []

-- What `JobComplete` and `JobFailed` answer once the update has been tried.
unfoldable pub answer_report : String → List Effect → String → Result Bool → M Response
answer_report event effects id (err _) = refuse 500
answer_report event effects id (ok false) = refuse 409
answer_report event effects id (ok true) = do
  fetched ← try (get_job_by_id id)
  answer empty (effects ++ notice event fetched)

abbrev pub elapsed : ℕ → Option ℕ → Option ℕ
elapsed now none = none
elapsed now (some t) = some (now - t)

abbrev pub completion_effects : Option ℕ → List Effect
completion_effects none = record_finished ∷ []
completion_effects (some d) = record_completed d ∷ record_finished ∷ []

pub record CompleteRequest : Type 0 where
  pub job_id : String
  pub worker_id : String
  pub output_size : ℤ

unfoldable pub complete_fetched : CompleteRequest → ℕ → Result Job → M Response
complete_fetched req now (err _) = refuse 404
complete_fetched req now (ok job) = do
  updated ← try (mark_job_completed job.id req.worker_id req.output_size "" job.started_at now)
  answer_report "completed" (completion_effects (elapsed now job.started_at)) job.id updated

unfoldable pub complete_decoded : Option CompleteRequest → ℕ → M Response
complete_decoded none now = refuse 400
complete_decoded (some req) now =
    if str_eq req.job_id ""
    then refuse 400
    else if str_eq req.worker_id ""
    then refuse 400
    else (do fetched ← try (get_job_by_id req.job_id); complete_fetched req now fetched)

unfoldable pub job_complete : Method → Option CompleteRequest → ℕ → M Response
job_complete method req now = only post method (complete_decoded req now)

pub record FailRequest : Type 0 where
  pub job_id : String
  pub worker_id : String
  pub error_message : String

unfoldable pub fail_fetched : FailRequest → ℕ → Result Job → M Response
fail_fetched req now (err _) = refuse 404
fail_fetched req now (ok job) = do
  updated ← try (mark_job_failed job.id req.worker_id req.error_message job.started_at now)
  answer_report "failed" (record_failed (elapsed now job.started_at) ∷ record_finished ∷ []) job.id
      updated

unfoldable pub fail_decoded : Option FailRequest → ℕ → M Response
fail_decoded none now = refuse 400
fail_decoded (some req) now =
    if str_eq req.job_id ""
    then refuse 400
    else if str_eq req.worker_id ""
    then refuse 400
    else (do fetched ← try (get_job_by_id req.job_id); fail_fetched req now fetched)

unfoldable pub job_failed : Method → Option FailRequest → ℕ → M Response
job_failed method req now = only post method (fail_decoded req now)

abbrev pub count_of : {A : Type 0} → Result (List A) → ℕ
count_of (ok xs) = length xs
count_of (err _) = 0

-- The gauges are set if all the workers could be read; active ones that could not count as none.
abbrev pub count_workers : Result (List WorkerHeartbeat) → ℕ → M (List Effect)
count_workers (err _) now = pure []
count_workers (ok all) now = do
  active ← try (get_active_workers 120 now)
  pure (set_worker_counts (length all) (count_of active) ∷ [])

unfoldable pub after_heartbeat : WorkerHeartbeat → ℕ → Result (Unit {0}) → M Response
after_heartbeat hb now (err _) = refuse 500
after_heartbeat hb now (ok _) = do
  all ← try get_workers
  counts ← count_workers all now
  answer empty (record_heartbeat hb.worker_id hb.hostname ∷ counts)

unfoldable pub heartbeat_decoded : Option WorkerHeartbeat → ℕ → M Response
heartbeat_decoded none now = refuse 400
heartbeat_decoded (some hb) now =
    if str_eq hb.worker_id ""
    then refuse 400
    else (do saved ← try (update_worker_heartbeat hb); after_heartbeat hb now saved)

unfoldable pub worker_heartbeat : Method → Option WorkerHeartbeat → ℕ → M Response
worker_heartbeat method hb now = only post method (heartbeat_decoded hb now)
