-- ===== src/Coordinator/Frames.antt =====
-- A relation that the monitors' updates keep to is kept to by a whole tick.
use dark_stream.Common.{
  length, ℕ, ◌≡◌, refl, Bool, true, false, List, [], ◌∷◌, ◌++◌, Option, some, String, All,
  Bool-cases, inl, inr, leb,
}
use dark_stream.Models.{Job, WorkerHeartbeat, processing, failed}
use dark_stream.Tracker.{no_rows, Store, Result, ok, err, pure, ◌>>=◌}
use dark_stream.Tracker.Jobs.{reset_job_to_pending, mark_job_failed_permanently}
use dark_stream.Tracker.Lookup.{
  get_job_by_id, first_row, count_pending_jobs, get_stale_processing_jobs, get_jobs_for_worker,
}
use dark_stream.Tracker.Workers.{set_where, get_workers, get_active_workers, mark_worker_offline}
use dark_stream.Tracker.Respects.{
  try_bind-Respects, IsFrame, Respects, pure-Respects, fail-Respects, >>=-Respects, query-Respects,
  exec-Respects, if-Respects,
}
use dark_stream.Coordinator.{
  failure_notice, mark_offline, release_jobs, release_listed, release_workers, after_expiry,
  after_retry, fail_stale, retry_stale, expire_job, expire_jobs, expire_listed,
  monitor_worker_health, is_backing_off, retry_failed, retry_job, retry_jobs,
}
use dark_stream.Metrics.{
  remove_worker_metrics, set_worker_counts, Effect, refresh_queue_depth, depth_effect,
}

module _ {R : Store → Store → Type 0} (frame : IsFrame R) where
  pub refresh_queue_depth-Respects : Respects R refresh_queue_depth
  unfolding refresh_queue_depth count_pending_jobs
  refresh_queue_depth-Respects =
      try_bind-Respects frame count_pending_jobs _ (query-Respects frame _)
        (λ n. pure-Respects frame (depth_effect n))

  first_row-Respects : (rows : List Job) → Respects R (first_row rows)
  first_row-Respects [] = fail-Respects frame Job no_rows
  first_row-Respects (j ∷ js) = pure-Respects frame j

  pub get_job_by_id-Respects : (id : String) → Respects R (get_job_by_id id)
  unfolding get_job_by_id
  get_job_by_id-Respects id =
      >>=-Respects frame _ first_row (query-Respects frame _) first_row-Respects

  pub mark_offline-Respects : (ws : List WorkerHeartbeat) → Respects R (mark_offline ws)
  unfolding mark_offline mark_worker_offline
  mark_offline-Respects [] = pure-Respects frame []
  mark_offline-Respects (w ∷ ws) =
      try_bind-Respects frame (mark_worker_offline w.worker_id) _
        (exec-Respects frame (set_where w.worker_id _) (λ s. refl) (λ s. refl))
        (λ _.
          >>=-Respects frame (mark_offline ws) _ (mark_offline-Respects ws)
            (λ rest. pure-Respects frame (remove_worker_metrics w.worker_id ∷ rest)))

  pub after_expiry-Respects : (id : String) (r : Result Bool) → Respects R (after_expiry id r)
  after_expiry-Respects id (ok true) =
      try_bind-Respects frame (get_job_by_id id) _ (get_job_by_id-Respects id)
        (λ j. pure-Respects frame (failure_notice j))
  after_expiry-Respects id (ok false) = pure-Respects frame []
  after_expiry-Respects id (err e) = pure-Respects frame []

  module _
      (release : (id : String) (again : Bool) (worker : String) (start : Option ℕ)
        → Respects R (reset_job_to_pending id again (some processing) worker start))
      (expire : (id worker message : String) (now : ℕ) (start : Option ℕ)
        → Respects R (mark_job_failed_permanently id worker message now start)) where
    release_jobs-Respects : (worker : String) (js : List Job) → Respects R (release_jobs worker js)
    unfolding release_jobs
    release_jobs-Respects worker [] = pure-Respects frame tt
    release_jobs-Respects worker (j ∷ js) =
        try_bind-Respects frame
          (reset_job_to_pending j.id false (some processing) worker j.started_at) _
          (release j.id false worker j.started_at) (λ _. release_jobs-Respects worker js)

    release_listed-Respects :
        (worker : String) (r : Result (List Job)) → Respects R (release_listed worker r)
    unfolding release_listed
    release_listed-Respects worker (ok js) = release_jobs-Respects worker js
    release_listed-Respects worker (err e) = pure-Respects frame tt

    release_workers-Respects : (ws : List WorkerHeartbeat) → Respects R (release_workers ws)
    unfolding release_workers get_jobs_for_worker
    release_workers-Respects [] = pure-Respects frame tt
    release_workers-Respects (w ∷ ws) =
        try_bind-Respects frame (get_jobs_for_worker w.worker_id) _ (query-Respects frame _)
          (λ jobs.
            >>=-Respects frame (release_listed w.worker_id jobs) _
              (release_listed-Respects w.worker_id jobs) (λ _. release_workers-Respects ws))

    expire_job-Respects :
        (message : ℕ → ℕ → String) (now : ℕ) (j : Job) → Respects R (expire_job message now j)
    unfolding expire_job fail_stale retry_stale
    expire_job-Respects message now j =
        if-Respects frame (leb j.max_retries j.retry_count) (fail_stale message now j)
          (retry_stale j)
          (try_bind-Respects frame _ _ (expire j.id j.worker_id _ now j.started_at)
            (after_expiry-Respects j.id))
          (try_bind-Respects frame _ _ (release j.id true j.worker_id j.started_at)
            (λ r. pure-Respects frame (after_retry r)))

    expire_jobs-Respects :
        (message : ℕ → ℕ → String) (now : ℕ) (js : List Job)
        → Respects R (expire_jobs message now js)
    unfolding expire_jobs
    expire_jobs-Respects message now [] = pure-Respects frame []
    expire_jobs-Respects message now (j ∷ js) =
        >>=-Respects frame (expire_job message now j) _ (expire_job-Respects message now j)
          (λ first.
            >>=-Respects frame (expire_jobs message now js) _ (expire_jobs-Respects message now js)
              (λ rest. pure-Respects frame (first ++ rest)))

    expire_listed-Respects :
        (message : ℕ → ℕ → String) (now : ℕ) (before : List Effect) (total active : ℕ)
        (r : Result (List Job))
        → Respects R (expire_listed message now before total active r)
    unfolding expire_listed
    expire_listed-Respects message now before total active (err e) = pure-Respects frame before
    expire_listed-Respects message now before total active (ok js) =
        >>=-Respects frame (expire_jobs message now js) _ (expire_jobs-Respects message now js)
          (λ expired.
            >>=-Respects frame refresh_queue_depth _ refresh_queue_depth-Respects (λ depth.
              pure-Respects frame (before ++ expired ++ set_worker_counts total active ∷ depth)))

    pub monitor_worker_health-Respects :
        (message : ℕ → ℕ → String) (timeout now : ℕ)
        → Respects R (monitor_worker_health message timeout now)
    unfolding monitor_worker_health get_workers get_active_workers get_stale_processing_jobs
    monitor_worker_health-Respects message timeout now =
        >>=-Respects frame get_workers _ (query-Respects frame _) (λ all.
          >>=-Respects frame _ _ (query-Respects frame _) (λ active.
            >>=-Respects frame _ _ (mark_offline-Respects _) (λ marked.
              >>=-Respects frame _ _ (release_workers-Respects _) (λ _.
                try_bind-Respects frame _ _ (query-Respects frame _) (λ stale.
                  expire_listed-Respects message now marked (length all) (length active) stale)))))

  -- Only the jobs that are not backing off are retried.
  pub retry_job-Respects :
      (now : ℕ) (j : Job)
      → (is_backing_off now j ≡ false → Respects R (retry_failed j))
      → Respects R (retry_job now j)
  unfolding retry_job
  retry_job-Respects now j retry = elim (Bool-cases (is_backing_off now j)) [
    | inl e ↦ rw e (pure-Respects frame [])
    | inr e ↦ rw e (retry e)
  ]

  pub retry_jobs-Respects :
      (now : ℕ) (js : List Job)
      → All (λ j. is_backing_off now j ≡ false → Respects R (retry_failed j)) js
      → Respects R (retry_jobs now js)
  unfolding retry_jobs
  retry_jobs-Respects now [] h = pure-Respects frame []
  retry_jobs-Respects now (j ∷ js) h =
      >>=-Respects frame (retry_job now j) _ (retry_job-Respects now j h.0) (λ first.
        >>=-Respects frame (retry_jobs now js) _ (retry_jobs-Respects now js h.1)
          (λ rest. pure-Respects frame (first ++ rest)))

  pub after_retries-Respects :
      (effects : List Effect)
      → Respects R (refresh_queue_depth >>= λ depth. pure (effects ++ depth))
  after_retries-Respects effects =
      >>=-Respects frame refresh_queue_depth _ refresh_queue_depth-Respects
        (λ depth. pure-Respects frame (effects ++ depth))

  pub retry_failed-Respects :
      (j : Job)
      → Respects R (reset_job_to_pending j.id true (some failed) "" j.started_at)
      → Respects R (retry_failed j)
  unfolding retry_failed
  retry_failed-Respects j h =
      try_bind-Respects frame _ _ h (λ r. pure-Respects frame (after_retry r))
