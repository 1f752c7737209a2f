-- ===== src/Server/Operator.antt =====
-- http.go: what operators ask of single jobs and of the queue.
use dark_stream.Common.{
  ℕ, zero, suc, ◌+◌, Bool, true, false, List, [], ◌∷◌, ◌++◌, Option, none, some, String,
  if◌then◌else◌, ltb, str_eq, ℤ, pos, negsuc,
}
use dark_stream.Models.{
  status_name, Job, Status, pending, processing, completed, failed, cancelled, status_eq,
}
use dark_stream.Metrics.{Effect, record_retry, refresh_queue_depth}
use dark_stream.Tracker.{Result, ok, err, no_rows, M, pure, ◌>>=◌, try}
use dark_stream.Tracker.Jobs.{reset_job_to_pending, update_job_priority, prune_jobs, may_prune}
use dark_stream.Tracker.Lookup.{get_job_by_id, get_retryable_failed_jobs, get_jobs_by_status}
use dark_stream.Server.{
  Method, get, post, delete, Body, empty, batch, retried, pruned, job_id, one_job, Response, refuse,
  answer, only, Param, missing, malformed, number, limit_of, validate_job_id, Credentials,
  require_auth,
}

-- `ResetJobToPending` for a failed job, with one more retry counted.
abbrev pub retry_reset : Job → M Bool
retry_reset j = reset_job_to_pending j.id true (some failed) "" j.started_at

abbrev pub one_more : Result Bool → ℕ
one_more (ok true) = 1
one_more _ = 0

-- How many of the first `limit` jobs could be reset.
unfoldable pub retry_up_to : ℕ → List Job → M ℕ
retry_up_to zero js = pure 0
retry_up_to (suc n) [] = pure 0
retry_up_to (suc n) (j ∷ js) = do
  updated ← try (retry_reset j)
  rest ← retry_up_to n js
  pure (one_more updated + rest)

abbrev pub retries : ℕ → List Effect
retries zero = []
retries (suc n) = record_retry "cli" ∷ retries n

unfoldable pub retry_listed : ℕ → Result (List Job) → M Response
retry_listed limit (err _) = refuse 500
retry_listed limit (ok js) = do
  n ← retry_up_to limit js
  depth ← refresh_queue_depth
  answer (retried n) (retries n ++ depth)

unfoldable pub retry_limited : Option ℕ → M Response
retry_limited none = refuse 400
retry_limited (some limit) = do js ← try get_retryable_failed_jobs; retry_listed limit js

unfoldable pub retry_failed_jobs : Method → Param → M Response
retry_failed_jobs method limit = only post method (retry_limited (limit_of 100 limit))

-- What the handlers of a single job answer once the update has been tried.
unfoldable pub answer_update : Body → List Effect → Result Bool → M Response
answer_update b effects (err _) = refuse 500
answer_update b effects (ok false) = refuse 409
answer_update b effects (ok true) = answer b effects

unfoldable pub retry_fetched : Result Job → M Response
retry_fetched (err _) = refuse 404
retry_fetched (ok j) =
    if status_eq j.status failed
    then (do
      updated ← try (retry_reset j)
      answer_update empty (record_retry "ui_single" ∷ []) updated)
    else refuse 400

unfoldable pub retry_job : Method → String → M Response
retry_job method id = only post method (
    if validate_job_id id
    then (do fetched ← try (get_job_by_id id); retry_fetched fetched)
    else refuse 400)

-- Any status is requeued, if it is still the one that was read; retries are not counted.
unfoldable pub requeue_fetched : Result Job → M Response
requeue_fetched (err _) = refuse 404
requeue_fetched (ok j) = do
  updated ← try (reset_job_to_pending j.id false (some j.status) "" j.started_at)
  answer_update empty (record_retry "ui_requeue" ∷ []) updated

unfoldable pub requeue_job : Method → String → Credentials → String → M Response
requeue_job method api_key c id = only post method (
    require_auth api_key c (
      if validate_job_id id
      then (do fetched ← try (get_job_by_id id); requeue_fetched fetched)
      else refuse 400))

-- A request in JSON, or by parameters; `none` is a body that cannot be decoded.
pub data PriorityRequest : Type 0 where
  json : Option (String × ℤ) → PriorityRequest
  query_parameters : String → Param → PriorityRequest

abbrev pub priority_of : Param → Option ℤ
priority_of missing = some (pos 0)
priority_of malformed = none
priority_of (number n) = some n

abbrev pub with_priority : String → Option ℤ → Option (String × ℤ)
with_priority id none = none
with_priority id (some n) = some (id, n)

abbrev pub decode_priority : PriorityRequest → Option (String × ℤ)
decode_priority (json req) = req
decode_priority (query_parameters id priority) = with_priority id (priority_of priority)

abbrev pub answer_set : String → Result (Unit {0}) → M Response
answer_set id (err _) = refuse 500
answer_set id (ok _) = answer (job_id id) []

unfoldable pub priority_fetched : String → ℕ → Result Job → M Response
priority_fetched id n (err _) = refuse 404
priority_fetched id n (ok _) = do done ← try (update_job_priority id n); answer_set id done

-- Between 0 and 10.
unfoldable pub set_priority : String → ℤ → M Response
set_priority id (negsuc _) = refuse 400
set_priority id (pos n) =
    if ltb 10 n
    then refuse 400
    else (do fetched ← try (get_job_by_id id); priority_fetched id n fetched)

unfoldable pub priority_decoded : Option (String × ℤ) → M Response
priority_decoded none = refuse 400
priority_decoded (some req) = if validate_job_id req.0 then set_priority req.0 req.1 else refuse 400

unfoldable pub update_priority : Method → PriorityRequest → M Response
update_priority method req = only post method (priority_decoded (decode_priority req))

abbrev pub answer_pruned : Result ℕ → M Response
answer_pruned (err _) = refuse 500
answer_pruned (ok n) = answer (pruned n) []

unfoldable pub prune : Method → String → M Response
prune method status =
    only delete method
      (if may_prune status then (do n ← try (prune_jobs status); answer_pruned n) else refuse 400)

-- A missing job is told apart from a database that fails.
unfoldable pub answer_job : Result Job → M Response
answer_job (err no_rows) = refuse 404
answer_job (err _) = refuse 500
answer_job (ok j) = answer (one_job j) []

unfoldable pub get_job : Method → String → M Response
get_job method id =
    only get method (
      if str_eq id ""
      then refuse 400
      else (do fetched ← try (get_job_by_id id); answer_job fetched))

-- The status that a parameter names.
abbrev pub status_in : String → List Status → Option Status
status_in name [] = none
status_in name (st ∷ sts) =
    let rest = status_in name sts in if str_eq (status_name st) name then some st else rest

abbrev pub rows_or_none : Result (List Job) → List Job
rows_or_none (ok js) = js
rows_or_none (err _) = []

unfoldable pub answer_list : Result (List Job) → M Response
answer_list (err _) = refuse 500
answer_list (ok js) = answer (batch js) []

-- The pending jobs first; an error of reading the others is passed over.
unfoldable pub list_open : ℕ → Result (List Job) → M Response
list_open limit (err _) = refuse 500
list_open limit (ok waiting) = do
  running ← try (get_jobs_by_status processing (pos limit))
  broken ← try (get_jobs_by_status failed (pos limit))
  answer (batch (waiting ++ rows_or_none running ++ rows_or_none broken)) []

unfoldable pub list_status : ℕ → Option Status → M Response
list_status limit none = refuse 400
list_status limit (some st) = do js ← try (get_jobs_by_status st (pos limit)); answer_list js

unfoldable pub list_limited : String → Option ℕ → M Response
list_limited status none = refuse 400
list_limited status (some limit) =
    if str_eq status ""
    then (do js ← try (get_jobs_by_status pending (pos limit)); list_open limit js)
    else list_status limit
        (status_in status (pending ∷ processing ∷ completed ∷ failed ∷ cancelled ∷ []))

unfoldable pub list_jobs : Method → String → Param → M Response
list_jobs method status limit = only get method (list_limited status (limit_of 100 limit))
