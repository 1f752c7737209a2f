-- ===== src/Server/Cancel.antt =====
-- http.go: cancelling, `CancelJob`, `CancelJobs`, `collectJobsToCancel` and `cancelJobBatch`.
use dark_stream.Common.{
  ℕ, ◌+◌, min, Bool, true, false, ◌||◌, ◌&&◌, List, [], ◌∷◌, ◌++◌, Option, none, some, String,
  if◌then◌else◌, leb, ◌==◌, str_eq, length, pos,
}
use dark_stream.Models.{Status, Job, pending, processing, status_eq}
use dark_stream.Tracker.{Result, ok, err, M, pure, ◌>>=◌, try}
use dark_stream.Tracker.Jobs.{mark_job_cancelled}
use dark_stream.Tracker.Lookup.{get_job_by_id, get_jobs_by_status}
use dark_stream.Server.{
  Method, post, cancelled_jobs, job_id, Response, refuse, answer, only, Param, limit_of,
  validate_job_id, Credentials, require_auth,
}
use dark_stream.Server.Operator.{answer_update}

unfoldable pub cancel_fetched : ℕ → Result Job → M Response
cancel_fetched now (err _) = refuse 404
cancel_fetched now (ok j) =
    if status_eq j.status pending || status_eq j.status processing
    then (do
      updated ← try (mark_job_cancelled j.id "Job cancelled by user" j.started_at now)
      answer_update (job_id j.id) [] updated)
    else refuse 400

unfoldable pub cancel_job : Method → String → Credentials → String → ℕ → M Response
cancel_job method api_key c id now = only post method (
    require_auth api_key c (
      if validate_job_id id
      then (do fetched ← try (get_job_by_id id); cancel_fetched now fetched)
      else refuse 400))

-- The jobs, and whether a listing failed.
abbrev pub listed : Result (List Job) → List Job × Bool
listed (ok js) = (js, false)
listed (err _) = ([], true)

abbrev pub joined : List Job × Bool → List Job × Bool → List Job × Bool
joined a b = (a.0 ++ b.0, a.1 || b.1)

abbrev pub list_if : Bool → Status → ℕ → M (List Job × Bool)
list_if false st limit = pure ([], false)
list_if true st limit = do js ← try (get_jobs_by_status st (pos limit)); pure (listed js)

unfoldable pub collect_jobs_to_cancel : String → ℕ → M (List Job × Bool)
collect_jobs_to_cancel status limit = do
  waiting ← list_if (str_eq status "all" || str_eq status "pending") pending limit
  running ← list_if (str_eq status "all" || str_eq status "processing") processing limit
  pure (joined waiting running)

-- How many jobs were cancelled, how many were not, and which ones were.
pub record Tally : Type 0 where
  pub cancelled_count : ℕ
  pub failed_count : ℕ
  pub cancelled_ids : List String

abbrev pub no_jobs : Tally
no_jobs = record { cancelled_count = 0; failed_count = 0; cancelled_ids = [] }

abbrev pub tallied : Tally → String → Result Bool → Tally
tallied t id (ok true) = record t {
  cancelled_count = t.cancelled_count + 1;
  cancelled_ids = t.cancelled_ids ++ id ∷ [];
}
tallied t id _ = record t { failed_count = t.failed_count + 1 }

-- The loop, with the tally so far; it ends when `limit` jobs are cancelled.
unfoldable pub cancel_job_batch : ℕ → ℕ → Tally → List Job → M Tally
cancel_job_batch limit now t [] = pure t
cancel_job_batch limit now t (j ∷ js) = if leb limit t.cancelled_count then pure t else (do
  updated ←
      try (mark_job_cancelled j.id "Job cancelled by user (batch cancellation)" j.started_at now)
  cancel_job_batch limit now (tallied t j.id updated) js)

unfoldable pub cancel_collected : ℕ → ℕ → List Job × Bool → M Response
cancel_collected limit now found = if found.1 && length found.0 == 0 then refuse 500 else (do
  t ← cancel_job_batch limit now no_jobs found.0
  answer (cancelled_jobs t.cancelled_count t.failed_count t.cancelled_ids) [])

unfoldable pub cancel_limited : String → ℕ → Option ℕ → M Response
cancel_limited status now none = refuse 400
cancel_limited status now (some limit) = do
  found ← collect_jobs_to_cancel status limit
  cancel_collected limit now found

abbrev pub capped : Option ℕ → Option ℕ
capped none = none
capped (some n) = some (min n 1000)

unfoldable pub cancel_jobs : Method → String → Credentials → String → Param → ℕ → M Response
cancel_jobs method api_key c status limit now = only post method (
    require_auth api_key c (
      if str_eq status "pending" || str_eq status "processing" || str_eq status "all"
      then cancel_limited status now (capped (limit_of 100 limit))
      else refuse 400))
