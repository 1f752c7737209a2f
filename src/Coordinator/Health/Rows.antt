-- ===== src/Coordinator/Health/Rows.antt =====
-- What a whole tick of the health monitor makes of each row.
use dark_stream.Common.{
  ℕ, ◌≡◌, refl, ap, subst, inl, true, false, List, [], ◌∷◌, Option, some, String, All, str_eq,
  filter, filter-All, All-filter, sort_by, All-sort_by, length,
}
use dark_stream.Models.{Job, WorkerHeartbeat}
use dark_stream.Metrics.{Effect}
use dark_stream.Tracker.{Store, Result, ◌>>=◌, reading, try}
use dark_stream.Tracker.Lookup.{get_stale_processing_jobs, is_stale, started_before}
use dark_stream.Tracker.Workers.{get_workers, get_active_workers, heard_later, is_active}
use dark_stream.Tracker.Outcomes.{bind_cases, called, statement_then}
use dark_stream.Tracker.Rows.{find_job, IsFound, Keyed, Keyed-All}
use dark_stream.Tracker.Fetching.{try_then}
use dark_stream.Coordinator.Health.{
  Released, KeepsReleased-frame, release_workers-Keeps, All-listed,
}
use dark_stream.Coordinator.Health.Stale.{Expired, Overdue, expire_listed-Keeps}
use dark_stream.Coordinator.{
  monitor_worker_health, release_workers, offline_workers, is_listed, expire_listed,
  timeout_or_default, mark_offline,
}
use dark_stream.Coordinator.Frames.{mark_offline-Respects}

-- The workers that a tick takes to be offline.
abbrev pub offline_in : ℕ → Store → List WorkerHeartbeat
offline_in now s =
    offline_workers (sort_by heard_later s.workers)
      (sort_by heard_later (filter (is_active 120 now) s.workers))

abbrev pub IsNamed : WorkerHeartbeat → Type 0
IsNamed w = str_eq w.worker_id "" ≡ false

offline-IsNamed :
    (now : ℕ) (s : Store)
    → All IsNamed s.workers
    → All (λ w. (is_listed (offline_in now s) w.worker_id ≡ true) × IsNamed w) (offline_in now s)
offline-IsNamed now s h = both (offline_in now s) (All-listed (offline_in now s)) (
    filter-All IsNamed _ (sort_by heard_later s.workers)
      (All-sort_by heard_later IsNamed s.workers h))
  where
    both :
        (ws : List WorkerHeartbeat)
        → All (λ w. is_listed (offline_in now s) w.worker_id ≡ true) ws
        → All IsNamed ws
        → All (λ w. (is_listed (offline_in now s) w.worker_id ≡ true) × IsNamed w) ws
    both [] a b = tt
    both (w ∷ ws) a b = ((a.0, b.0), both ws a.1 b.1)

overdue :
    (message : ℕ → ℕ → String) (timeout now : ℕ) (id : String) (js : List Job)
    → Keyed js
    → All
        (Overdue message timeout now id (find_job id js))
        (sort_by started_before (filter (is_stale timeout now) js))
overdue message timeout now id js h =
    let found : All (IsFound js) (filter (is_stale timeout now) js) =
      filter-All (IsFound js) (is_stale timeout now) js (Keyed-All js h) in
    All-sort_by started_before (Overdue message timeout now id (find_job id js))
      (filter (is_stale timeout now) js)
      (both (filter (is_stale timeout now) js) found (All-filter (is_stale timeout now) js))
  where
    both :
        (ks : List Job)
        → All (IsFound js) ks
        → All (λ k. is_stale timeout now k ≡ true) ks
        → All (Overdue message timeout now id (find_job id js)) ks
    both [] f r = tt
    both (k ∷ ks) f r =
        ((r.0, λ same. subst (λ x. find_job x js ≡ some k) same f.0), both ks f.1 r.1)

module _ (message : ℕ → ℕ → String) (timeout now : ℕ) (s : Store) (id : String) where
  -- A row that the tick may leave.
  abbrev pub HealthOutcome : Option Job → Type 0
  HealthOutcome o' =
      (o : Option Job) × Released (offline_in now s) (find_job id s.jobs) o
      × Expired message (timeout_or_default timeout) now o o'

  abbrev Good : {A : Type 0} → Result A × Store → Type 0
  Good r = HealthOutcome (find_job id r.1.jobs)

  -- The last part of the tick, from a store in which some jobs may have been released.
  ends :
      (before : List Effect) (total active : ℕ) (t : Store)
      → Keyed t.jobs × Released (offline_in now s) (find_job id s.jobs) (find_job id t.jobs)
      → Good (
          (try (get_stale_processing_jobs (timeout_or_default timeout) now)
              >>= expire_listed message now before total active)
            t)
  unfolding get_stale_processing_jobs expire_listed
  ends before total active t h =
      try_then
        (reading
          (λ u. sort_by started_before (filter (is_stale (timeout_or_default timeout) now) u.jobs)))
        (expire_listed message now before total active) t Good (find_job id t.jobs, h.1, inl refl)
        (
          find_job id t.jobs,
          h.1,
          (expire_listed-Keeps message (timeout_or_default timeout) now id (find_job id t.jobs)
                before total active _
                (overdue message (timeout_or_default timeout) now id t.jobs h.0)).apply
              (called t) (inl refl),
        )

-- From a keyed table in which every worker has an identifier, and whatever calls of the database fail, a tick of the
-- health monitor leaves a row as it was, or first puts a running job back into the queue, with its retries kept, if the query
-- for active workers does not list its worker, and then deals with a job that the query for stale ones lists: it is put back with one more retry counted or, once its retries
-- are used up, failed.
pub monitor_worker_health_rows :
    (message : ℕ → ℕ → String) (timeout now : ℕ) (s : Store) (id : String)
    → Keyed s.jobs
    → All IsNamed s.workers
    → HealthOutcome message timeout now s id
        (find_job id (monitor_worker_health message timeout now s).1.jobs)
unfolding monitor_worker_health get_workers get_active_workers
monitor_worker_health_rows message timeout now s id keyed named =
    statement_then (reading (λ t. sort_by heard_later t.workers)) _ s P untouched (
      statement_then (reading (λ t. sort_by heard_later (filter (is_active 120 now) t.workers))) _
        (called s) P untouched
        (bind_cases (mark_offline offline) _ (called (called s)) P
          (λ e t h. stopped t (marked_at t h))
          (λ marked t h.
            bind_cases (release_workers offline) _ t P
              (λ e u g. stopped u (subst Kept (ap (λ r. r.1) g) (free t (marked_at t h))))
              (λ _ u g.
                ends message timeout now s id marked (length (sort_by heard_later s.workers))
                  (length (sort_by heard_later (filter (is_active 120 now) s.workers))) u
                  (subst Kept (ap (λ r. r.1) g) (free t (marked_at t h)))))))
  where
    offline : List WorkerHeartbeat
    offline = offline_in now s

    P : Result (List Effect) × Store → Type 0
    P r = HealthOutcome message timeout now s id (find_job id r.1.jobs)

    Kept : Store → Type 0
    Kept t = Keyed t.jobs × Released (offline_in now s) (find_job id s.jobs) (find_job id t.jobs)

    untouched : HealthOutcome message timeout now s id (find_job id s.jobs)
    untouched = (find_job id s.jobs, inl refl, inl refl)

    marked_at :
        {r : Result (List Effect)} (t : Store)
        → mark_offline (offline_in now s) (called (called s)) ≡ (r, t)
        → Kept t
    marked_at t h = subst Kept (ap (λ r. r.1) h) (
        (mark_offline-Respects (KeepsReleased-frame (offline_in now s) id (find_job id s.jobs))
            (offline_in now s)).apply
          (called (called s)) (keyed, inl refl))

    free : (t : Store) → Kept t → Kept (release_workers (offline_in now s) t).1
    free t h =
        (release_workers-Keeps (offline_in now s) id (find_job id s.jobs) (offline_in now s)
            (offline-IsNamed now s named)).apply
          t h

    stopped : (t : Store) → Kept t → HealthOutcome message timeout now s id (find_job id t.jobs)
    stopped t h = (find_job id t.jobs, h.1, inl refl)
