-- ===== src/Server/Settings.antt =====
-- http.go: `HandleWorkerSettings` and what it calls, and the reports of a job's progress, `JobProgress` and `GetJobProgress`.
pub mod Saved
use dark_stream.Common.{
  pos, ℤ, ◌/◌, ℕ, str_eq, some, none, if◌then◌else◌, [], String, Option, Bool, ◌&&◌,
}
use dark_stream.Config.{at_least}
use dark_stream.Models.{Job, WorkerSettings, JobProgress}
use dark_stream.Server.{
  worker_settings, job_progress, job_status, get, post, delete, put, other, Credentials, Method,
  Response, require_auth, refuse, answer, only, validate_job_id, empty,
}
use dark_stream.Tracker.{Result, ok, err, M, ◌>>=◌, try}
use dark_stream.Tracker.Settings.{get_worker_config, save_worker_config, delete_worker_config}
use dark_stream.Tracker.Workers.{update_job_progress, get_job_progress}
use dark_stream.Tracker.Lookup.{get_job_by_id}

-- `global` is the configuration manager's `GetWorkerConfig`, as settings.
unfoldable pub answer_settings : WorkerSettings → String → Result WorkerSettings → M Response
answer_settings global worker (err _) =
    answer (worker_settings (record global { worker_id = worker })) []
answer_settings global worker (ok c) = answer (worker_settings c) []

unfoldable pub get_worker_settings : WorkerSettings → String → M Response
get_worker_settings global worker = do
  found ← try (get_worker_config worker)
  answer_settings global worker found

abbrev pub are_valid : WorkerSettings → Bool
are_valid c =
    at_least 1 c.concurrency
    && at_least 1 c.heartbeat_interval
    && at_least 1 c.job_check_interval
    && at_least 60 c.job_timeout
    && at_least 60 c.download_timeout
    && at_least 60 c.upload_timeout

unfoldable pub answer_saved : WorkerSettings → Result (Unit {0}) → M Response
answer_saved c (err _) = refuse 500
answer_saved c (ok _) = answer (worker_settings c) []

abbrev pub named : String → WorkerSettings → WorkerSettings
named worker c = record c { worker_id = worker }

unfoldable pub save_worker_settings : String → Option WorkerSettings → M Response
save_worker_settings worker none = refuse 400
save_worker_settings worker (some c) =
    if are_valid c
    then (do saved ← try (save_worker_config (named worker c)); answer_saved (named worker c) saved)
    else refuse 400

unfoldable pub answer_deleted : Result (Unit {0}) → M Response
answer_deleted (err _) = refuse 500
answer_deleted (ok _) = refuse 204

unfoldable pub delete_worker_settings : String → M Response
delete_worker_settings worker = do gone ← try (delete_worker_config worker); answer_deleted gone

abbrev pub settings_method : Method → WorkerSettings → String → Option WorkerSettings → M Response
settings_method get global worker body = get_worker_settings global worker
settings_method post global worker body = save_worker_settings worker body
settings_method delete global worker body = delete_worker_settings worker
settings_method put global worker body = refuse 405
settings_method other global worker body = refuse 405

unfoldable pub handle_worker_settings :
    String → Credentials → Method → WorkerSettings → String → Option WorkerSettings → M Response
handle_worker_settings api_key c method global worker body =
    if str_eq worker ""
    then refuse 400
    else require_auth api_key c (settings_method method global worker body)

unfoldable pub answer_updated : Result (Unit {0}) → M Response
answer_updated (err _) = refuse 500
answer_updated (ok _) = answer empty []

abbrev pub progress_decoded : ℕ → Option JobProgress → M Response
progress_decoded now none = refuse 400
progress_decoded now (some p) =
    if str_eq p.job_id "" then refuse 400 else if str_eq p.worker_id "" then refuse 400 else (do
      updated ← try (update_job_progress (record p { updated_at = now }))
      answer_updated updated)

unfoldable pub report_job_progress : Method → Option JobProgress → ℕ → M Response
report_job_progress method body now = only post method (progress_decoded now body)

unfoldable pub answer_status_of : Result Job → M Response
answer_status_of (err _) = refuse 404
answer_status_of (ok j) = answer (job_status j) []

-- A job without a report is answered with its status.
unfoldable pub answer_progress : String → Result JobProgress → M Response
answer_progress id (ok p) = answer (job_progress p) []
answer_progress id (err _) = do found ← try (get_job_by_id id); answer_status_of found

unfoldable pub ask_job_progress : Method → String → M Response
ask_job_progress method id = only get method (
    if validate_job_id id
    then (do found ← try (get_job_progress id); answer_progress id found)
    else refuse 400)
