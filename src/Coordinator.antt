-- ===== src/Coordinator.antt =====
-- video-converter-master/internal/coordinator/coordinator.go: what the background monitors do on a
-- tick. A tick has one reading of the clock, `now`; a database error that the code logs and passes
-- over is passed over here, and the metrics and webhooks of a tick are its result.
pub mod Frames
pub mod Monitors
pub mod Backoff
pub mod Scans
pub mod Health
pub mod Due
use dark_stream.Common.{
  ℕ, ◌+◌, ◌*◌, ◌^◌, ◌<◌, min, Bool, true, false, not, ◌&&◌, ◌||◌, List, [], ◌∷◌, ◌++◌, map, Option,
  none, some, String, if◌then◌else◌, ltb, leb, ◌==◌, str_eq, filter, length, count,
}
use dark_stream.Models.{Job, WorkerHeartbeat, processing, failed, second, minute}
use dark_stream.Metrics.{
  Effect, notify, record_retry, set_worker_counts, remove_worker_metrics, refresh_queue_depth,
}
use dark_stream.Tracker.{
  Store, Result, ok, err, Error, job_already_exists, driver, M, pure, ◌>>=◌, ◌>>◌, try,
}
use dark_stream.Tracker.Jobs.{create_job, reset_job_to_pending, mark_job_failed_permanently}
use dark_stream.Tracker.Lookup.{
  get_job_by_id, get_stale_processing_jobs, get_retryable_failed_jobs, get_jobs_for_worker,
}
use dark_stream.Tracker.Workers.{get_workers, get_active_workers, mark_worker_offline}

abbrev heartbeat_threshold : ℕ
heartbeat_threshold = 120

-- `activeWorkerIDs[worker.WorkerID]`.
abbrev pub is_listed : List WorkerHeartbeat → String → Bool
is_listed [] id = false
is_listed (w ∷ ws) id = str_eq w.worker_id id || is_listed ws id

abbrev pub offline_workers : List WorkerHeartbeat → List WorkerHeartbeat → List WorkerHeartbeat
offline_workers all active = filter (λ w. not (is_listed active w.worker_id)) all

unfoldable pub mark_offline : List WorkerHeartbeat → M (List Effect)
mark_offline [] = pure []
mark_offline (w ∷ ws) = do
  _ ← try (mark_worker_offline w.worker_id)
  rest ← mark_offline ws
  pure (remove_worker_metrics w.worker_id ∷ rest)

-- The jobs of an offline worker go back to the queue; their retry counts stay.
unfoldable pub release_jobs : String → List Job → M (Unit {0})
release_jobs worker [] = pure tt
release_jobs worker (j ∷ js) = do
  _ ← try (reset_job_to_pending j.id false (some processing) worker j.started_at)
  release_jobs worker js

-- A worker whose jobs cannot be read is skipped.
unfoldable pub release_listed : String → Result (List Job) → M (Unit {0})
release_listed worker (ok jobs) = release_jobs worker jobs
release_listed worker (err _) = pure tt

unfoldable pub release_workers : List WorkerHeartbeat → M (Unit {0})
release_workers [] = pure tt
release_workers (w ∷ ws) = do
  jobs ← try (get_jobs_for_worker w.worker_id)
  release_listed w.worker_id jobs
  release_workers ws

-- The webhook is called with the row as it is now, if it can be read.
abbrev pub failure_notice : Result Job → List Effect
failure_notice (ok j) = notify "failed" j ∷ []
failure_notice (err _) = []

abbrev after_expiry : String → Result Bool → M (List Effect)
after_expiry id (ok true) = do fetched ← try (get_job_by_id id); pure (failure_notice fetched)
after_expiry id _ = pure []

abbrev after_retry : Result Bool → List Effect
after_retry (ok true) = record_retry "monitor" ∷ []
after_retry _ = []

-- `message` stands for the text that `fmt.Sprintf` makes of the timeout and the retry counts.
unfoldable pub fail_stale : (ℕ → ℕ → String) → ℕ → Job → M (List Effect)
fail_stale message now j = do
  updated ← try (
      mark_job_failed_permanently j.id j.worker_id (message j.retry_count j.max_retries) now
        j.started_at)
  after_expiry j.id updated

unfoldable pub retry_stale : Job → M (List Effect)
retry_stale j = do
  updated ← try (reset_job_to_pending j.id true (some processing) j.worker_id j.started_at)
  pure (after_retry updated)

-- A stale job fails for good once its retries are used up.
unfoldable pub expire_job : (ℕ → ℕ → String) → ℕ → Job → M (List Effect)
expire_job message now j =
    if leb j.max_retries j.retry_count then fail_stale message now j else retry_stale j

unfoldable pub expire_jobs : (ℕ → ℕ → String) → ℕ → List Job → M (List Effect)
expire_jobs message now [] = pure []
expire_jobs message now (j ∷ js) = do
  first ← expire_job message now j
  rest ← expire_jobs message now js
  pure (first ++ rest)

-- The last part of a tick: the stale jobs, unless they cannot be read, then the gauges.
unfoldable pub expire_listed :
    (ℕ → ℕ → String) → ℕ → List Effect → ℕ → ℕ → Result (List Job) → M (List Effect)
expire_listed message now before total active (err _) = pure before
expire_listed message now before total active (ok stale) = do
  expired ← expire_jobs message now stale
  depth ← refresh_queue_depth
  pure (before ++ expired ++ set_worker_counts total active ∷ depth)

-- A timeout of 0 in the configuration stands for two hours; both are in seconds.
abbrev pub timeout_or_default : ℕ → ℕ
timeout_or_default timeout = if timeout == 0 then 7200 else timeout

-- The body of the loop of `monitorWorkerHealth`.
unfoldable pub monitor_worker_health : (ℕ → ℕ → String) → ℕ → ℕ → M (List Effect)
monitor_worker_health message timeout now = do
  all ← get_workers
  active ← get_active_workers heartbeat_threshold now
  let offline = offline_workers all active
  marked ← mark_offline offline
  release_workers offline
  stale ← try (get_stale_processing_jobs (timeout_or_default timeout) now)
  expire_listed message now marked (length all) (length active) stale

-- `min(1 << min(retry_count, 6), 60)` minutes.
unfoldable pub delay_minutes : ℕ → ℕ
delay_minutes retry_count = min (2 ^ min retry_count 6) 60

abbrev pub still_waiting : ℕ → ℕ → Option ℕ → Bool
still_waiting now retry_count none = false
still_waiting now retry_count (some t) = ltb now (t + delay_minutes retry_count * minute)

-- `job.CompletedAt != nil && time.Since(*job.CompletedAt) < backoffDuration`.
abbrev pub is_backing_off : ℕ → Job → Bool
is_backing_off now j = still_waiting now j.retry_count j.completed_at

unfoldable pub retry_failed : Job → M (List Effect)
retry_failed j = do
  updated ← try (reset_job_to_pending j.id true (some failed) "" j.started_at)
  pure (after_retry updated)

unfoldable pub retry_job : ℕ → Job → M (List Effect)
retry_job now j = if is_backing_off now j then pure [] else retry_failed j

unfoldable pub retry_jobs : ℕ → List Job → M (List Effect)
retry_jobs now [] = pure []
retry_jobs now (j ∷ js) = do first ← retry_job now j; rest ← retry_jobs now js; pure (first ++ rest)

-- The body of the loop of `monitorFailedJobs`.
unfoldable pub monitor_failed_jobs : ℕ → M (List Effect)
monitor_failed_jobs now = do
  failures ← get_retryable_failed_jobs
  retried ← retry_jobs now failures
  depth ← refresh_queue_depth
  pure (retried ++ depth)

-- Whether an insertion added a job, and whether it failed for another reason than that the job is
-- there already.
abbrev pub added : Result (Unit {0}) → ℕ
added (ok _) = 1
added (err _) = 0

abbrev pub rejected : Result (Unit {0}) → ℕ
rejected (ok _) = 0
rejected (err job_already_exists) = 0
rejected (err _) = 1

-- The loop over the scanned jobs, in `Start` and in `periodicScan`: how many jobs are new, and how
-- many insertions failed.
unfoldable pub insert_jobs : List Job → M (ℕ × ℕ)
insert_jobs [] = pure (0, 0)
insert_jobs (j ∷ js) = do
  r ← try (create_job j)
  rest ← insert_jobs js
  pure (added r + rest.0, rejected r + rest.1)

-- `periodicScan` refreshes the gauge only where it found a new job.
unfoldable pub periodic_scan : List Job → M (List Effect)
periodic_scan jobs = do
  counts ← insert_jobs jobs
  if ltb 0 counts.0 then refresh_queue_depth else pure []
