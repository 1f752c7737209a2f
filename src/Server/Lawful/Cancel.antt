-- ===== src/Server/Lawful/Cancel.antt =====
-- Cancelling drops jobs that are queued or running.
use dark_stream.Common.{
  ℕ, Bool, true, false, ◌||◌, ◌&&◌, String, List, [], ◌∷◌, Option, none, some, str_eq, ◌==◌, length,
  leb, refl, pos,
}
use dark_stream.Models.{Job, Status, pending, processing, status_eq}
use dark_stream.Metrics.{remove_worker_metrics}
use dark_stream.Tracker.{Result, ok, err, pure}
use dark_stream.Tracker.Lookup.{get_jobs_by_status}
use dark_stream.Tracker.Respects.{
  query-Respects, exec-Respects, pure-Respects, >>=-Respects, try_bind-Respects, if-Respects,
}
use dark_stream.Tracker.Workers.{set_where, set_worker_status, delete_worker}
use dark_stream.Tracker.Settings.{delete_worker_config}
use dark_stream.Lifecycle.{Powers, Edge}
use dark_stream.Lifecycle.Lawful.{edges, Lawful}
use dark_stream.Lifecycle.Statements.{mark_job_cancelled-Lawful}
use dark_stream.Server.{
  cancelled_jobs, Method, post, delete, empty, job_id, Param, limit_of, Credentials,
  validate_job_id,
}
use dark_stream.Server.Cancel.{
  listed, cancel_fetched, cancel_job, list_if, collect_jobs_to_cancel, Tally, no_jobs, tallied,
  cancel_job_batch, cancel_collected, cancel_limited, capped, cancel_jobs,
}
use dark_stream.Server.Fleet.{
  answer_status, set_status, pause_worker, resume_worker, after_delete, handle_worker_admin,
}
use dark_stream.Server.Lawful.{
  refuse-Respects, answer-Respects, only-Respects, when-Respects, unless-Respects,
  require_auth-Respects, fetch-Respects,
}
use dark_stream.Server.Lawful.Operator.{answer_update-Lawful}

cancel_fetched-Lawful :
    {powers : Powers} → (now : ℕ) (r : Result Job) → Lawful (Edge powers) (cancel_fetched now r)
unfolding cancel_fetched
cancel_fetched-Lawful now (err e) = refuse-Respects edges 404
cancel_fetched-Lawful now (ok j) =
    when-Respects edges (status_eq j.status pending || status_eq j.status processing) _ 400 (
      try_bind-Respects edges _ _ (mark_job_cancelled-Lawful j.id _ j.started_at now)
        (answer_update-Lawful (job_id j.id) []))

pub cancel_job-Lawful :
    {powers : Powers}
    → (method : Method) (api_key : String) (c : Credentials) (id : String) (now : ℕ)
    → Lawful (Edge powers) (cancel_job method api_key c id now)
unfolding cancel_job
cancel_job-Lawful method api_key c id now = only-Respects edges post method _ (
    require_auth-Respects edges api_key c _ (
      when-Respects edges (validate_job_id id) _ 400
        (fetch-Respects edges id _ (cancel_fetched-Lawful now))))

list_if-Lawful :
    {powers : Powers}
    → (b : Bool) (st : Status) (limit : ℕ) → Lawful (Edge powers) (list_if b st limit)
unfolding get_jobs_by_status
list_if-Lawful false st limit = pure-Respects edges _
list_if-Lawful true st limit =
    try_bind-Respects edges (get_jobs_by_status st (pos limit)) _ (query-Respects edges _)
      (λ js. pure-Respects edges (listed js))

collect-Lawful :
    {powers : Powers}
    → (status : String) (limit : ℕ) → Lawful (Edge powers) (collect_jobs_to_cancel status limit)
unfolding collect_jobs_to_cancel
collect-Lawful status limit =
    >>=-Respects edges _ _
      (list_if-Lawful (str_eq status "all" || str_eq status "pending") pending limit)
      (λ waiting.
        >>=-Respects edges _ _
          (list_if-Lawful (str_eq status "all" || str_eq status "processing") processing limit)
          (λ running. pure-Respects edges _))

cancel_job_batch-Lawful :
    {powers : Powers}
    → (limit now : ℕ) (t : Tally) (js : List Job)
    → Lawful (Edge powers) (cancel_job_batch limit now t js)
unfolding cancel_job_batch
cancel_job_batch-Lawful limit now t [] = pure-Respects edges t
cancel_job_batch-Lawful limit now t (j ∷ js) =
    if-Respects edges (leb limit t.cancelled_count) (pure t) _ (pure-Respects edges t) (
      try_bind-Respects edges _ _ (mark_job_cancelled-Lawful j.id _ j.started_at now)
        (λ updated. cancel_job_batch-Lawful limit now (tallied t j.id updated) js))

cancel_collected-Lawful :
    {powers : Powers}
    → (limit now : ℕ) (found : List Job × Bool)
    → Lawful (Edge powers) (cancel_collected limit now found)
unfolding cancel_collected
cancel_collected-Lawful limit now found =
    unless-Respects edges (found.1 && length found.0 == 0) 500 _ (
      >>=-Respects edges _ _ (cancel_job_batch-Lawful limit now no_jobs found.0) (λ t.
        answer-Respects edges (cancelled_jobs t.cancelled_count t.failed_count t.cancelled_ids) []))

cancel_limited-Lawful :
    {powers : Powers}
    → (status : String) (now : ℕ) (limit : Option ℕ)
    → Lawful (Edge powers) (cancel_limited status now limit)
unfolding cancel_limited
cancel_limited-Lawful status now none = refuse-Respects edges 400
cancel_limited-Lawful status now (some limit) =
    >>=-Respects edges _ _ (collect-Lawful status limit) (cancel_collected-Lawful limit now)

pub cancel_jobs-Lawful :
    {powers : Powers}
    → (method : Method) (api_key : String) (c : Credentials) (status : String) (limit : Param)
      (now : ℕ)
    → Lawful (Edge powers) (cancel_jobs method api_key c status limit now)
unfolding cancel_jobs
cancel_jobs-Lawful method api_key c status limit now = only-Respects edges post method _ (
    require_auth-Respects edges api_key c _ (
      when-Respects edges
        (str_eq status "pending" || str_eq status "processing" || str_eq status "all") _ 400
        (cancel_limited-Lawful status now (capped (limit_of 100 limit)))))

answer_status-Lawful :
    {powers : Powers} → (r : Result (Unit {0})) → Lawful (Edge powers) (answer_status r)
answer_status-Lawful (err e) = refuse-Respects edges 500
answer_status-Lawful (ok u) = answer-Respects edges empty []

set_status-Lawful :
    {powers : Powers} → (worker status : String) → Lawful (Edge powers) (set_status worker status)
unfolding set_status set_worker_status
set_status-Lawful worker status = unless-Respects edges (str_eq worker "") 400 _ (
    try_bind-Respects edges (set_worker_status worker status) _
      (exec-Respects edges (set_where worker (λ w. record w { status = status })) (λ s. refl)
        (λ s. refl))
      answer_status-Lawful)

pub pause_worker-Lawful :
    {powers : Powers}
    → (method : Method) (worker : String) → Lawful (Edge powers) (pause_worker method worker)
unfolding pause_worker
pause_worker-Lawful method worker = only-Respects edges post method _ (set_status-Lawful worker _)

pub resume_worker-Lawful :
    {powers : Powers}
    → (method : Method) (worker : String) → Lawful (Edge powers) (resume_worker method worker)
unfolding resume_worker
resume_worker-Lawful method worker = only-Respects edges post method _ (set_status-Lawful worker _)

after_delete-Lawful :
    {powers : Powers}
    → (worker : String) (r : Result (Unit {0})) → Lawful (Edge powers) (after_delete worker r)
unfolding after_delete delete_worker_config
after_delete-Lawful worker (err e) = refuse-Respects edges 500
after_delete-Lawful worker (ok u) =
    try_bind-Respects edges (delete_worker_config worker) _
      (exec-Respects edges _ (λ s. refl) (λ s. refl))
      (λ r. answer-Respects edges empty (remove_worker_metrics worker ∷ []))

pub handle_worker_admin-Lawful :
    {powers : Powers}
    → (method : Method) (worker : String) → Lawful (Edge powers) (handle_worker_admin method worker)
unfolding handle_worker_admin delete_worker
handle_worker_admin-Lawful method worker = only-Respects edges delete method _ (
    unless-Respects edges (str_eq worker "") 400 _ (
      try_bind-Respects edges (delete_worker worker) _
        (exec-Respects edges _ (λ s. refl) (λ s. refl)) (after_delete-Lawful worker)))
