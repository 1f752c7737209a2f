-- ===== src/Server/Lawful/Reports.antt =====
-- What workers report ends the jobs that they hold.
use dark_stream.Common.{
  length, ◌++◌, ℕ, Bool, true, false, String, List, [], ◌∷◌, Option, none, some, str_eq,
}
use dark_stream.Models.{Job, WorkerHeartbeat}
use dark_stream.Metrics.{record_heartbeat, set_worker_counts, Effect}
use dark_stream.Tracker.{Result, ok, err}
use dark_stream.Tracker.Workers.{
  upsert_worker-faults, upsert_worker-jobs, update_worker_heartbeat, upsert_worker, get_workers,
  get_active_workers,
}
use dark_stream.Tracker.Respects.{
  query-Respects, exec-Respects, pure-Respects, >>=-Respects, try_bind-Respects,
}
use dark_stream.Lifecycle.{Powers, Edge}
use dark_stream.Lifecycle.Lawful.{edges, Lawful}
use dark_stream.Lifecycle.Statements.{mark_job_completed-Lawful, mark_job_failed-Lawful}
use dark_stream.Server.{Method, post, empty}
use dark_stream.Server.Reports.{
  count_of, notice, answer_report, CompleteRequest, complete_fetched, complete_decoded,
  job_complete, FailRequest, fail_fetched, fail_decoded, job_failed, count_workers, after_heartbeat,
  heartbeat_decoded, worker_heartbeat,
}
use dark_stream.Server.Lawful.{
  refuse-Respects, answer-Respects, only-Respects, unless-Respects, fetch-Respects,
}

answer_report-Lawful :
    {powers : Powers}
    → (event : String) (effects : List Effect) (id : String) (r : Result Bool)
    → Lawful (Edge powers) (answer_report event effects id r)
unfolding answer_report
answer_report-Lawful event effects id (err e) = refuse-Respects edges 500
answer_report-Lawful event effects id (ok false) = refuse-Respects edges 409
answer_report-Lawful event effects id (ok true) =
    fetch-Respects edges id _
      (λ fetched. answer-Respects edges empty (effects ++ notice event fetched))

complete_fetched-Lawful :
    {powers : Powers}
    → (req : CompleteRequest) (now : ℕ) (r : Result Job)
    → Lawful (Edge powers) (complete_fetched req now r)
unfolding complete_fetched
complete_fetched-Lawful req now (err e) = refuse-Respects edges 404
complete_fetched-Lawful req now (ok j) =
    try_bind-Respects edges _ _
      (mark_job_completed-Lawful j.id req.worker_id req.output_size "" j.started_at now)
      (answer_report-Lawful "completed" _ j.id)

complete_decoded-Lawful :
    {powers : Powers}
    → (req : Option CompleteRequest) (now : ℕ) → Lawful (Edge powers) (complete_decoded req now)
unfolding complete_decoded
complete_decoded-Lawful none now = refuse-Respects edges 400
complete_decoded-Lawful (some req) now = unless-Respects edges (str_eq req.job_id "") 400 _ (
    unless-Respects edges (str_eq req.worker_id "") 400 _
      (fetch-Respects edges req.job_id _ (complete_fetched-Lawful req now)))

pub job_complete-Lawful :
    {powers : Powers}
    → (method : Method) (req : Option CompleteRequest) (now : ℕ)
    → Lawful (Edge powers) (job_complete method req now)
unfolding job_complete
job_complete-Lawful method req now =
    only-Respects edges post method _ (complete_decoded-Lawful req now)

fail_fetched-Lawful :
    {powers : Powers}
    → (req : FailRequest) (now : ℕ) (r : Result Job) → Lawful (Edge powers) (fail_fetched req now r)
unfolding fail_fetched
fail_fetched-Lawful req now (err e) = refuse-Respects edges 404
fail_fetched-Lawful req now (ok j) =
    try_bind-Respects edges _ _
      (mark_job_failed-Lawful j.id req.worker_id req.error_message j.started_at now)
      (answer_report-Lawful "failed" _ j.id)

fail_decoded-Lawful :
    {powers : Powers}
    → (req : Option FailRequest) (now : ℕ) → Lawful (Edge powers) (fail_decoded req now)
unfolding fail_decoded
fail_decoded-Lawful none now = refuse-Respects edges 400
fail_decoded-Lawful (some req) now = unless-Respects edges (str_eq req.job_id "") 400 _ (
    unless-Respects edges (str_eq req.worker_id "") 400 _
      (fetch-Respects edges req.job_id _ (fail_fetched-Lawful req now)))

pub job_failed-Lawful :
    {powers : Powers}
    → (method : Method) (req : Option FailRequest) (now : ℕ)
    → Lawful (Edge powers) (job_failed method req now)
unfolding job_failed
job_failed-Lawful method req now = only-Respects edges post method _ (fail_decoded-Lawful req now)

count_workers-Lawful :
    {powers : Powers}
    → (r : Result (List WorkerHeartbeat)) (now : ℕ) → Lawful (Edge powers) (count_workers r now)
unfolding get_active_workers
count_workers-Lawful (err e) now = pure-Respects edges []
count_workers-Lawful (ok all) now =
    try_bind-Respects edges (get_active_workers 120 now) _ (query-Respects edges _)
      (λ active. pure-Respects edges (set_worker_counts (length all) (count_of active) ∷ []))

after_heartbeat-Lawful :
    {powers : Powers}
    → (hb : WorkerHeartbeat) (now : ℕ) (r : Result (Unit {0}))
    → Lawful (Edge powers) (after_heartbeat hb now r)
unfolding after_heartbeat get_workers
after_heartbeat-Lawful hb now (err e) = refuse-Respects edges 500
after_heartbeat-Lawful hb now (ok u) =
    try_bind-Respects edges get_workers _ (query-Respects edges _) (λ all.
      >>=-Respects edges (count_workers all now) _ (count_workers-Lawful all now) (λ counts.
        answer-Respects edges empty (record_heartbeat hb.worker_id hb.hostname ∷ counts)))

heartbeat_decoded-Lawful :
    {powers : Powers}
    → (hb : Option WorkerHeartbeat) (now : ℕ) → Lawful (Edge powers) (heartbeat_decoded hb now)
unfolding heartbeat_decoded update_worker_heartbeat
heartbeat_decoded-Lawful none now = refuse-Respects edges 400
heartbeat_decoded-Lawful (some hb) now = unless-Respects edges (str_eq hb.worker_id "") 400 _ (
    try_bind-Respects edges (update_worker_heartbeat hb) _
      (exec-Respects edges (upsert_worker hb) (λ s. upsert_worker-jobs hb s)
        (λ s. upsert_worker-faults hb s))
      (after_heartbeat-Lawful hb now))

pub worker_heartbeat-Lawful :
    {powers : Powers}
    → (method : Method) (hb : Option WorkerHeartbeat) (now : ℕ)
    → Lawful (Edge powers) (worker_heartbeat method hb now)
unfolding worker_heartbeat
worker_heartbeat-Lawful method hb now =
    only-Respects edges post method _ (heartbeat_decoded-Lawful hb now)
