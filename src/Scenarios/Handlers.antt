-- ===== src/Scenarios/Handlers.antt =====
-- Requests of workers and of operators, and the limiter.
use dark_stream.Common.{
  pos, ◌*◌, ℕ, ◌≡◌, ◌+◌, ◌-◌, ◌/◌, ◌≤◌, ◌⊎◌, refl, true, false, List, [], ◌∷◌, none, some, String,
  arith,
}
use dark_stream.Models.{second}
use dark_stream.Tracker.Jobs.{completed_row, cancelled_row}
use dark_stream.Tracker.Rows.{find_job, Keyed}
use dark_stream.Server.{post, Credentials, authenticate_request, validate_job_id}
use dark_stream.Server.Reports.{CompleteRequest, FailRequest, job_complete}
use dark_stream.Server.Cancel.{cancel_job}
use dark_stream.Server.Verdicts.{TurnedDown, Updated}
use dark_stream.Server.Verdicts.Reports.{Reported, job_complete_verdict, job_complete_succeeds}
use dark_stream.Server.Verdicts.Operator.{Changed, is_open, cancel_job_verdict}
use dark_stream.Server.Limiter.{Bucket, allow_bucket, request_limit, request_rate}
use dark_stream.Server.Limiter.Windows.{Use, asked, swept, after_uses, allow_limits}
use dark_stream.Server.Limiter.Bounds.{admitted, cleanup_forgets_nothing}
use dark_stream.Scenarios.Samples.{running, low, mixed}

abbrev done_request : CompleteRequest
done_request = record { job_id = "running"; worker_id = "w1"; output_size = pos 7 }

abbrev stolen_request : CompleteRequest
stolen_request = record { job_id = "running"; worker_id = "w2"; output_size = pos 7 }

abbrev failure_request : FailRequest
failure_request = record { job_id = "running"; worker_id = "w1"; error_message = "no space" }

abbrev right_key : Credentials
right_key = record { authorization = "Bearer k"; api_key = "" }

abbrev wrong_key : Credentials
wrong_key = record { authorization = "Bearer q"; api_key = "k" }

pub mixed-Keyed : Keyed mixed.jobs
unfolding find_job
mixed-Keyed = (refl, (refl, (refl, tt)))

finds_running : find_job "running" mixed.jobs ≡ some running
unfolding find_job
finds_running = refl

finds_low : find_job "low" mixed.jobs ≡ some low
unfolding find_job
finds_low = refl

right_key_passes : authenticate_request "k" right_key ≡ true
unfolding authenticate_request
right_key_passes = refl

wrong_key_fails : authenticate_request "k" wrong_key ≡ false
unfolding authenticate_request
wrong_key_fails = refl

low_is_valid : validate_job_id "low" ≡ true
unfolding validate_job_id
low_is_valid = refl

path_is_invalid : validate_job_id "../low" ≡ false
unfolding validate_job_id
path_is_invalid = refl

job_complete_verdict_example :
    Reported
      (completed_row "w2" 90 (pos 7) "")
      "running"
      "w2"
      mixed
      (job_complete post (some stolen_request) 90 mixed)
    ⊎ TurnedDown mixed (job_complete post (some stolen_request) 90 mixed)
job_complete_verdict_example = job_complete_verdict post stolen_request 90 mixed mixed-Keyed

job_complete_succeeds_example :
    Updated
      (completed_row "w1" 90 (pos 7) "")
      running
      mixed
      (job_complete post (some done_request) 90 mixed)
job_complete_succeeds_example =
    job_complete_succeeds done_request 90 mixed running mixed-Keyed refl refl refl finds_running
      refl refl

cancel_job_verdict_example :
    ((authenticate_request "k" right_key ≡ true)
      × Changed
          (cancelled_row "Job cancelled by user" 90)
          is_open
          "low"
          mixed
          (cancel_job post "k" right_key "low" 90 mixed))
    ⊎ TurnedDown mixed (cancel_job post "k" right_key "low" 90 mixed)
cancel_job_verdict_example = cancel_job_verdict post "k" right_key "low" 90 mixed mixed-Keyed

-- Two requests of one address and one of another, within a second.
abbrev three_requests : List (String × ℕ)
three_requests = ("a", 701 * second) ∷ ("b", 702 * second) ∷ ("a", 703 * second) ∷ []

-- Before these, the address was busy and then away for long enough to have its bucket removed.
abbrev busy_before : List Use
busy_before = asked "a" 0 ∷ asked "a" 3 ∷ swept (700 * second) ∷ asked "a" (700 * second) ∷ []

allow_limits_example :
    admitted "a" request_limit request_rate
      (after_uses request_limit request_rate busy_before [])
      three_requests
    ≤ request_limit + (800 * second - 701 * second) / request_rate
allow_limits_example =
    allow_limits request_limit request_rate (701 * second) (800 * second) (omega arith)
      (omega arith) "a" busy_before three_requests
      ((omega arith, omega arith), ((omega arith, omega arith), ((omega arith, omega arith), tt)))

abbrev idle_bucket : Bucket
idle_bucket = record { tokens = 3; last_refill = 0 }

cleanup_forgets_nothing_example :
    allow_bucket request_limit request_rate (700 * second) (some idle_bucket)
    ≡ allow_bucket request_limit request_rate (700 * second) none
cleanup_forgets_nothing_example =
    cleanup_forgets_nothing (650 * second) (700 * second) idle_bucket refl (omega arith)
