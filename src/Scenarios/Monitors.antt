-- ===== src/Scenarios/Monitors.antt =====
-- Ticks of the background monitors.
use dark_stream.Common.{ℕ, ◌≡◌, ◌*◌, refl, false, String, some, true}
use dark_stream.Models.{second, minute, processing, failed}
use dark_stream.Tracker.Rows.{find_job, Keyed}
use dark_stream.Coordinator.{
  monitor_worker_health, monitor_failed_jobs, delay_minutes, is_backing_off,
}
use dark_stream.Coordinator.Monitors.{has_status}
use dark_stream.Coordinator.Due.{monitor_failed_jobs_brings_back}
use dark_stream.Tracker.Jobs.{reset_row}
use dark_stream.Coordinator.Health.Rows.{HealthOutcome, monitor_worker_health_rows}
use dark_stream.Coordinator.Backoff.{Retried, monitor_failed_jobs_retries}
use dark_stream.Scenarios.Samples.{mixed, broken}

abbrev message : ℕ → ℕ → String
message used allowed = "job timed out"

mixed_keys : Keyed mixed.jobs
unfolding find_job
mixed_keys = (refl, (refl, (refl, tt)))

low_is_not_running : has_status processing (find_job "low" mixed.jobs) ≡ false
unfolding find_job
low_is_not_running = refl

running_is_not_failed : has_status failed (find_job "running" mixed.jobs) ≡ false
unfolding find_job
running_is_not_failed = refl

monitor_failed_jobs_retries_example :
    Retried
      (2 * minute)
      (find_job "broken" mixed.jobs)
      (find_job "broken" (monitor_failed_jobs (2 * minute) mixed).1.jobs)
monitor_failed_jobs_retries_example =
    monitor_failed_jobs_retries (2 * minute) mixed "broken" mixed_keys

monitor_worker_health_rows_example :
    HealthOutcome message 0
      (7300 * second)
      mixed
      "running"
      (find_job "running" (monitor_worker_health message 0 (7300 * second) mixed).1.jobs)
monitor_worker_health_rows_example =
    monitor_worker_health_rows message 0 (7300 * second) mixed "running" mixed_keys tt

finds_broken : find_job "broken" mixed.jobs ≡ some broken
unfolding find_job
finds_broken = refl

broken_is_due : is_backing_off (2 * minute) broken ≡ false
unfolding delay_minutes
broken_is_due = refl

monitor_failed_jobs_brings_back_example :
    find_job "broken" (monitor_failed_jobs (2 * minute) mixed).1.jobs ≡ some (reset_row true broken)
monitor_failed_jobs_brings_back_example =
    monitor_failed_jobs_brings_back (2 * minute) mixed "broken" broken mixed_keys refl finds_broken
      refl broken_is_due
