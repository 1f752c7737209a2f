-- ===== src/Server/Lawful/Settings.antt =====
-- Settings of workers and reports of progress leave the jobs alone.
use dark_stream.Tracker.{ok, err, no_rows, Result}
use dark_stream.Server.Lawful.{
  refuse-Respects, answer-Respects, only-Respects, when-Respects, unless-Respects,
  require_auth-Respects, fetch-Respects,
}
use dark_stream.Tracker.Respects.{
  pure-Respects, query-Respects, >>=-Respects, exec-Respects, fail-Respects, try_bind-Respects,
}
use dark_stream.Lifecycle.Lawful.{edges, Lawful}
use dark_stream.Models.{Job, WorkerSettings, JobProgress}
use dark_stream.Tracker.Settings.{
  upsert_settings, first_settings, save_worker_config, delete_worker_config, get_worker_config,
}
use dark_stream.Lifecycle.{Edge, Powers}
use dark_stream.Tracker.Workers.{
  upsert_progress-faults, upsert_progress-jobs, upsert_progress, first_progress, get_job_progress,
  update_job_progress,
}
use dark_stream.Server.Settings.{
  named, are_valid, progress_decoded, settings_method, report_job_progress, get_worker_settings,
  save_worker_settings, delete_worker_settings, answer_settings, ask_job_progress, answer_saved,
  answer_status_of, handle_worker_settings, answer_deleted, answer_updated, answer_progress,
}
use dark_stream.Common.{◌∷◌, ℕ, str_eq, some, refl, none, arith, [], String, Option, List}
use dark_stream.Server.{Method, get, post, delete, put, other, Credentials, validate_job_id, empty}

answer_settings-Lawful :
    {powers : Powers}
    → (global : WorkerSettings) (worker : String) (r : Result WorkerSettings)
    → Lawful (Edge powers) (answer_settings global worker r)
unfolding answer_settings
answer_settings-Lawful global worker (err e) = answer-Respects edges _ []
answer_settings-Lawful global worker (ok c) = answer-Respects edges _ []

first_settings-Lawful :
    {powers : Powers} → (cs : List WorkerSettings) → Lawful (Edge powers) (first_settings cs)
first_settings-Lawful [] = fail-Respects edges WorkerSettings no_rows
first_settings-Lawful (c ∷ cs) = pure-Respects edges c

get_worker_settings-Lawful :
    {powers : Powers}
    → (global : WorkerSettings) (worker : String)
    → Lawful (Edge powers) (get_worker_settings global worker)
unfolding get_worker_settings get_worker_config
get_worker_settings-Lawful global worker =
    try_bind-Respects edges (get_worker_config worker) _
      (>>=-Respects edges _ first_settings (query-Respects edges _) first_settings-Lawful)
      (answer_settings-Lawful global worker)

answer_saved-Lawful :
    {powers : Powers}
    → (c : WorkerSettings) (r : Result (Unit {0})) → Lawful (Edge powers) (answer_saved c r)
unfolding answer_saved
answer_saved-Lawful c (err e) = refuse-Respects edges 500
answer_saved-Lawful c (ok u) = answer-Respects edges _ []

save_worker_settings-Lawful :
    {powers : Powers}
    → (worker : String) (c : Option WorkerSettings)
    → Lawful (Edge powers) (save_worker_settings worker c)
unfolding save_worker_settings save_worker_config
save_worker_settings-Lawful worker none = refuse-Respects edges 400
save_worker_settings-Lawful worker (some c) = when-Respects edges (are_valid c) _ 400 (
    try_bind-Respects edges (save_worker_config (named worker c)) _
      (exec-Respects edges (upsert_settings (named worker c)) (λ s. ground arith)
        (λ s. ground arith))
      (answer_saved-Lawful (named worker c)))

answer_deleted-Lawful :
    {powers : Powers} → (r : Result (Unit {0})) → Lawful (Edge powers) (answer_deleted r)
unfolding answer_deleted
answer_deleted-Lawful (err e) = refuse-Respects edges 500
answer_deleted-Lawful (ok u) = refuse-Respects edges 204

delete_worker_settings-Lawful :
    {powers : Powers} → (worker : String) → Lawful (Edge powers) (delete_worker_settings worker)
unfolding delete_worker_settings delete_worker_config
delete_worker_settings-Lawful worker =
    try_bind-Respects edges (delete_worker_config worker) _
      (exec-Respects edges _ (λ s. refl) (λ s. refl)) answer_deleted-Lawful

settings_method-Lawful :
    {powers : Powers}
    → (method : Method) (global : WorkerSettings) (worker : String) (body : Option WorkerSettings)
    → Lawful (Edge powers) (settings_method method global worker body)
settings_method-Lawful get global worker body = get_worker_settings-Lawful global worker
settings_method-Lawful post global worker body = save_worker_settings-Lawful worker body
settings_method-Lawful delete global worker body = delete_worker_settings-Lawful worker
settings_method-Lawful put global worker body = refuse-Respects edges 405
settings_method-Lawful other global worker body = refuse-Respects edges 405

pub handle_worker_settings-Lawful :
    {powers : Powers}
    → (api_key : String) (c : Credentials) (method : Method) (global : WorkerSettings)
      (worker : String) (body : Option WorkerSettings)
    → Lawful (Edge powers) (handle_worker_settings api_key c method global worker body)
unfolding handle_worker_settings
handle_worker_settings-Lawful api_key c method global worker body =
    unless-Respects edges (str_eq worker "") 400 _
      (require_auth-Respects edges api_key c _ (settings_method-Lawful method global worker body))

answer_updated-Lawful :
    {powers : Powers} → (r : Result (Unit {0})) → Lawful (Edge powers) (answer_updated r)
unfolding answer_updated
answer_updated-Lawful (err e) = refuse-Respects edges 500
answer_updated-Lawful (ok u) = answer-Respects edges empty []

progress_decoded-Lawful :
    {powers : Powers}
    → (now : ℕ) (body : Option JobProgress) → Lawful (Edge powers) (progress_decoded now body)
unfolding update_job_progress
progress_decoded-Lawful now none = refuse-Respects edges 400
progress_decoded-Lawful now (some p) = unless-Respects edges (str_eq p.job_id "") 400 _ (
    unless-Respects edges (str_eq p.worker_id "") 400 _ (
      try_bind-Respects edges (update_job_progress (record p { updated_at = now })) _
        (exec-Respects edges (upsert_progress (record p { updated_at = now }))
          (λ s. upsert_progress-jobs _ s) (λ s. upsert_progress-faults _ s))
        answer_updated-Lawful))

pub report_job_progress-Lawful :
    {powers : Powers}
    → (method : Method) (body : Option JobProgress) (now : ℕ)
    → Lawful (Edge powers) (report_job_progress method body now)
unfolding report_job_progress
report_job_progress-Lawful method body now =
    only-Respects edges post method _ (progress_decoded-Lawful now body)

answer_status_of-Lawful :
    {powers : Powers} → (r : Result Job) → Lawful (Edge powers) (answer_status_of r)
unfolding answer_status_of
answer_status_of-Lawful (err e) = refuse-Respects edges 404
answer_status_of-Lawful (ok j) = answer-Respects edges _ []

answer_progress-Lawful :
    {powers : Powers}
    → (id : String) (r : Result JobProgress) → Lawful (Edge powers) (answer_progress id r)
unfolding answer_progress
answer_progress-Lawful id (ok p) = answer-Respects edges _ []
answer_progress-Lawful id (err e) = fetch-Respects edges id _ answer_status_of-Lawful

first_progress-Lawful :
    {powers : Powers} → (ps : List JobProgress) → Lawful (Edge powers) (first_progress ps)
first_progress-Lawful [] = fail-Respects edges JobProgress no_rows
first_progress-Lawful (p ∷ ps) = pure-Respects edges p

pub ask_job_progress-Lawful :
    {powers : Powers}
    → (method : Method) (id : String) → Lawful (Edge powers) (ask_job_progress method id)
unfolding ask_job_progress get_job_progress
ask_job_progress-Lawful method id = only-Respects edges get method _ (
    when-Respects edges (validate_job_id id) _ 400 (
      try_bind-Respects edges (get_job_progress id) _
        (>>=-Respects edges _ first_progress (query-Respects edges _) first_progress-Lawful)
        (answer_progress-Lawful id)))
