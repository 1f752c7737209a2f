-- ===== src/Server/Lawful/Operator.antt =====
-- What operators ask: retries, requeued jobs, priorities, pruning, listings and worker administration.
use dark_stream.Common.{
  ◌≡◌, ◌++◌, ◌+◌, ℕ, zero, suc, Bool, true, false, String, List, [], ◌∷◌, Option, none, some,
  str_eq, ℤ, pos, negsuc, ltb,
}
use dark_stream.Models.{Job, Status, failed, pending, processing, status_eq}
use dark_stream.Metrics.{Effect}
use dark_stream.Tracker.{Result, ok, err, no_rows}
use dark_stream.Tracker.Jobs.{update_job_priority, prune_jobs, may_prune}
use dark_stream.Tracker.Lookup.{get_retryable_failed_jobs, get_jobs_by_status}
use dark_stream.Tracker.Respects.{query-Respects, pure-Respects, >>=-Respects, try_bind-Respects}
use dark_stream.Lifecycle.{Powers, Edge}
use dark_stream.Lifecycle.Lawful.{edges, Lawful}
use dark_stream.Lifecycle.Statements.{
  reset_job_to_pending-Lawful, retried-Lawful, update_job_priority-Lawful,
}
use dark_stream.Lifecycle.Population.{prune_jobs-Lawful}
use dark_stream.Server.{
  batch, job_id, pruned, retried, Method, get, post, delete, Body, empty, Param, limit_of,
  Credentials, validate_job_id,
}
use dark_stream.Server.Operator.{
  rows_or_none, answer_set, answer_pruned, list_status, list_jobs, list_open, list_limited,
  answer_list, retries, one_more, retry_up_to, retry_listed, retry_limited, retry_failed_jobs,
  answer_update, retry_fetched, retry_job, requeue_fetched, requeue_job, PriorityRequest,
  decode_priority, priority_fetched, set_priority, priority_decoded, update_priority, prune,
  answer_job, get_job,
}
use dark_stream.Server.Lawful.{
  if-Respects, refuse-Respects, answer-Respects, only-Respects, when-Respects, unless-Respects,
  require_auth-Respects, fetch-Respects, with_depth-Respects,
}

retry_up_to-Lawful :
    {powers : Powers} → (n : ℕ) (js : List Job) → Lawful (Edge powers) (retry_up_to n js)
unfolding retry_up_to
retry_up_to-Lawful zero js = pure-Respects edges 0
retry_up_to-Lawful (suc n) [] = pure-Respects edges 0
retry_up_to-Lawful (suc n) (j ∷ js) =
    try_bind-Respects edges _ _ (retried-Lawful j.id true "" j.started_at) (λ updated.
      >>=-Respects edges (retry_up_to n js) _ (retry_up_to-Lawful n js)
        (λ rest. pure-Respects edges (one_more updated + rest)))

retry_listed-Lawful :
    {powers : Powers}
    → (limit : ℕ) (r : Result (List Job)) → Lawful (Edge powers) (retry_listed limit r)
unfolding retry_listed
retry_listed-Lawful limit (err e) = refuse-Respects edges 500
retry_listed-Lawful limit (ok js) =
    >>=-Respects edges (retry_up_to limit js) _ (retry_up_to-Lawful limit js) (λ n.
      with_depth-Respects edges _ (λ depth. answer-Respects edges (retried n) (retries n ++ depth)))

retry_limited-Lawful :
    {powers : Powers} → (limit : Option ℕ) → Lawful (Edge powers) (retry_limited limit)
unfolding retry_limited get_retryable_failed_jobs
retry_limited-Lawful none = refuse-Respects edges 400
retry_limited-Lawful (some limit) =
    try_bind-Respects edges get_retryable_failed_jobs _ (query-Respects edges _)
      (retry_listed-Lawful limit)

pub retry_failed_jobs-Lawful :
    {powers : Powers}
    → (method : Method) (limit : Param) → Lawful (Edge powers) (retry_failed_jobs method limit)
unfolding retry_failed_jobs
retry_failed_jobs-Lawful method limit =
    only-Respects edges post method _ (retry_limited-Lawful (limit_of 100 limit))

pub answer_update-Lawful :
    {powers : Powers}
    → (b : Body) (effects : List Effect) (r : Result Bool)
    → Lawful (Edge powers) (answer_update b effects r)
unfolding answer_update
answer_update-Lawful b effects (err e) = refuse-Respects edges 500
answer_update-Lawful b effects (ok false) = refuse-Respects edges 409
answer_update-Lawful b effects (ok true) = answer-Respects edges b effects

retry_fetched-Lawful : {powers : Powers} → (r : Result Job) → Lawful (Edge powers) (retry_fetched r)
unfolding retry_fetched
retry_fetched-Lawful (err e) = refuse-Respects edges 404
retry_fetched-Lawful (ok j) = when-Respects edges (status_eq j.status failed) _ 400 (
    try_bind-Respects edges _ _ (retried-Lawful j.id true "" j.started_at)
      (answer_update-Lawful empty _))

pub retry_job-Lawful :
    {powers : Powers} → (method : Method) (id : String) → Lawful (Edge powers) (retry_job method id)
unfolding retry_job
retry_job-Lawful method id = only-Respects edges post method _ (
    when-Respects edges (validate_job_id id) _ 400
      (fetch-Respects edges id retry_fetched retry_fetched-Lawful))

requeue_fetched-Lawful :
    {powers : Powers}
    → powers.reopens ≡ true
    → (r : Result Job) → Lawful (Edge powers) (requeue_fetched r)
unfolding requeue_fetched
requeue_fetched-Lawful may (err e) = refuse-Respects edges 404
requeue_fetched-Lawful may (ok j) =
    try_bind-Respects edges _ _
      (reset_job_to_pending-Lawful may j.id false (some j.status) "" j.started_at)
      (answer_update-Lawful empty _)

pub requeue_job-Lawful :
    {powers : Powers}
    → powers.reopens ≡ true
    → (method : Method) (api_key : String) (c : Credentials) (id : String)
    → Lawful (Edge powers) (requeue_job method api_key c id)
unfolding requeue_job
requeue_job-Lawful may method api_key c id = only-Respects edges post method _ (
    require_auth-Respects edges api_key c _ (
      when-Respects edges (validate_job_id id) _ 400
        (fetch-Respects edges id requeue_fetched (requeue_fetched-Lawful may))))

answer_set-Lawful :
    {powers : Powers}
    → (id : String) (r : Result (Unit {0})) → Lawful (Edge powers) (answer_set id r)
answer_set-Lawful id (err e) = refuse-Respects edges 500
answer_set-Lawful id (ok u) = answer-Respects edges (job_id id) []

priority_fetched-Lawful :
    {powers : Powers}
    → (id : String) (n : ℕ) (r : Result Job) → Lawful (Edge powers) (priority_fetched id n r)
unfolding priority_fetched
priority_fetched-Lawful id n (err e) = refuse-Respects edges 404
priority_fetched-Lawful id n (ok j) =
    try_bind-Respects edges (update_job_priority id n) _ (update_job_priority-Lawful id n)
      (answer_set-Lawful id)

set_priority-Lawful :
    {powers : Powers} → (id : String) (n : ℤ) → Lawful (Edge powers) (set_priority id n)
unfolding set_priority
set_priority-Lawful id (negsuc n) = refuse-Respects edges 400
set_priority-Lawful id (pos n) =
    unless-Respects edges (ltb 10 n) 400 _
      (fetch-Respects edges id _ (priority_fetched-Lawful id n))

priority_decoded-Lawful :
    {powers : Powers} → (req : Option (String × ℤ)) → Lawful (Edge powers) (priority_decoded req)
unfolding priority_decoded
priority_decoded-Lawful none = refuse-Respects edges 400
priority_decoded-Lawful (some req) =
    when-Respects edges (validate_job_id req.0) _ 400 (set_priority-Lawful req.0 req.1)

pub update_priority-Lawful :
    {powers : Powers}
    → (method : Method) (req : PriorityRequest) → Lawful (Edge powers) (update_priority method req)
unfolding update_priority
update_priority-Lawful method req =
    only-Respects edges post method _ (priority_decoded-Lawful (decode_priority req))

answer_pruned-Lawful : {powers : Powers} → (r : Result ℕ) → Lawful (Edge powers) (answer_pruned r)
answer_pruned-Lawful (err e) = refuse-Respects edges 500
answer_pruned-Lawful (ok n) = answer-Respects edges (pruned n) []

pub prune-Lawful :
    {powers : Powers}
    → powers.prunes ≡ true
    → (method : Method) (status : String) → Lawful (Edge powers) (prune method status)
unfolding prune
prune-Lawful may method status = only-Respects edges delete method _ (
    when-Respects edges (may_prune status) _ 400 (
      try_bind-Respects edges (prune_jobs status) _ (prune_jobs-Lawful may status)
        answer_pruned-Lawful))

answer_job-Lawful : {powers : Powers} → (r : Result Job) → Lawful (Edge powers) (answer_job r)
unfolding answer_job
answer_job-Lawful (err no_rows) = refuse-Respects edges 404
answer_job-Lawful (err _) = refuse-Respects edges 500
answer_job-Lawful (ok j) = answer-Respects edges _ []

pub get_job-Lawful :
    {powers : Powers} → (method : Method) (id : String) → Lawful (Edge powers) (get_job method id)
unfolding get_job
get_job-Lawful method id = only-Respects edges get method _ (
    unless-Respects edges (str_eq id "") 400 _
      (fetch-Respects edges id answer_job answer_job-Lawful))

answer_list-Lawful :
    {powers : Powers} → (r : Result (List Job)) → Lawful (Edge powers) (answer_list r)
unfolding answer_list
answer_list-Lawful (err e) = refuse-Respects edges 500
answer_list-Lawful (ok js) = answer-Respects edges (batch js) []

list_open-Lawful :
    {powers : Powers}
    → (limit : ℕ) (r : Result (List Job)) → Lawful (Edge powers) (list_open limit r)
unfolding list_open get_jobs_by_status
list_open-Lawful limit (err e) = refuse-Respects edges 500
list_open-Lawful limit (ok waiting) =
    try_bind-Respects edges (get_jobs_by_status processing (pos limit)) _ (query-Respects edges _)
      (λ running.
        try_bind-Respects edges (get_jobs_by_status failed (pos limit)) _ (query-Respects edges _)
          (λ broken.
            answer-Respects edges (batch (waiting ++ rows_or_none running ++ rows_or_none broken))
              []))

list_status-Lawful :
    {powers : Powers}
    → (limit : ℕ) (st : Option Status) → Lawful (Edge powers) (list_status limit st)
unfolding list_status get_jobs_by_status
list_status-Lawful limit none = refuse-Respects edges 400
list_status-Lawful limit (some st) =
    try_bind-Respects edges (get_jobs_by_status st (pos limit)) answer_list (query-Respects edges _)
      answer_list-Lawful

list_limited-Lawful :
    {powers : Powers}
    → (status : String) (limit : Option ℕ) → Lawful (Edge powers) (list_limited status limit)
unfolding list_limited get_jobs_by_status
list_limited-Lawful status none = refuse-Respects edges 400
list_limited-Lawful status (some limit) =
    if-Respects edges (str_eq status "") _ _
      (try_bind-Respects edges (get_jobs_by_status pending (pos limit)) (list_open limit)
        (query-Respects edges _) (list_open-Lawful limit))
      (list_status-Lawful limit _)

pub list_jobs-Lawful :
    {powers : Powers}
    → (method : Method) (status : String) (limit : Param)
    → Lawful (Edge powers) (list_jobs method status limit)
unfolding list_jobs
list_jobs-Lawful method status limit =
    only-Respects edges get method _ (list_limited-Lawful status (limit_of 100 limit))
