-- ===== src/Coordinator/Health.antt =====
-- The health monitor releases the running jobs of workers that are offline, and no others.
pub mod Stale
pub mod Rows
use dark_stream.Common.{
  ℕ, ◌≡◌, ◌≢◌, refl, sym, ◌∙◌, ap, subst, ◌≤◌, ◌<◌, ◌⊎◌, inl, inr, Bool, true, false, not, List, [],
  ◌∷◌, ◌++◌, Option, none, some, String, if◌then◌else◌, All, All-map, Bool-cases, arith, str_eq,
  str_eq-true, filter, filter-All, All-filter, sort_by, All-sort_by, leb, length, eq_refl,
}
use mathlib.Core.Bool.{false≢true}
use dark_stream.Models.{Job, Status, WorkerHeartbeat, status_eq, processing, pending, failed}
use dark_stream.Metrics.{Effect, refresh_queue_depth, remove_worker_metrics, set_worker_counts}
use dark_stream.Tracker.{
  Store, Result, ok, err, Error, driver, M, pure, ◌>>=◌, query, reading, try, statement,
}
use dark_stream.Tracker.Jobs.{
  exec_job_transition, transition, reset_job_to_pending, may_reset, reset_row, has_id, is_held_by,
  failed_row, mark_job_failed_permanently,
}
use dark_stream.Tracker.Lookup.{
  get_stale_processing_jobs, is_stale, started_before, get_jobs_for_worker,
}
use dark_stream.Tracker.Workers.{get_workers, get_active_workers, heard_later, is_active}
use dark_stream.Tracker.Outcomes.{called, statement_then}
use dark_stream.Tracker.Rows.{
  update_where-Keyed, find_job, find_job_id, changed, find_job-update_where, IsFound, Keyed,
  Keyed-All,
}
use dark_stream.Tracker.Respects.{
  IsFrame, Respects, >>=-Respects, query-Respects, statement-Respects, pure-Respects,
  try_bind-Respects, if-Respects,
}
use dark_stream.Coordinator.{
  monitor_worker_health, release_jobs, release_listed, release_workers, offline_workers, is_listed,
  expire_job, expire_jobs, expire_listed, fail_stale, retry_stale, after_expiry, after_retry,
  timeout_or_default, mark_offline,
}
use dark_stream.Coordinator.Monitors.{has_status}
use dark_stream.Coordinator.Frames.{
  mark_offline-Respects, after_expiry-Respects, refresh_queue_depth-Respects,
}

-- A row after the release of the jobs of these workers.
abbrev pub Released : List WorkerHeartbeat → Option Job → Option Job → Type 0
Released offline o o' =
    (o' ≡ o)
    ⊎ ((k : Job) × (o ≡ some k)
        × (status_eq k.status processing ≡ true)
        × (is_listed offline k.worker_id ≡ true)
        × (o' ≡ some (reset_row false k)))

module _ (offline : List WorkerHeartbeat) (id : String) (o : Option Job) where
  abbrev pub KeepsReleased : Store → Store → Type 0
  KeepsReleased s t =
      Keyed s.jobs × Released offline o (find_job id s.jobs)
      → Keyed t.jobs × Released offline o (find_job id t.jobs)

  pub KeepsReleased-frame : IsFrame KeepsReleased
  KeepsReleased-frame = record { same = λ s t e _ h. rw e h; trans = λ s t u f g h. g (f h) }

  module _ (worker : String) (listed : is_listed offline worker ≡ true)
      (named : str_eq worker "" ≡ false) (j : Job) where
    not_processing :
        {k : Job} (k₀ : Job)
        → may_reset j.id (some processing) worker j.started_at k ≡ true
        → some k ≢ some (reset_row false k₀)
    not_processing {k} k₀ e same =
        let p : has_status pending (some k) ≡ true =
          subst (λ x. has_status pending x ≡ true) (sym same) refl in
        ground arith

    listed_here :
        (k : Job)
        → may_reset j.id (some processing) worker j.started_at k ≡ true
        → is_listed offline k.worker_id ≡ true
    listed_here k e =
        let at : k.worker_id ≡ worker = str_eq-true k.worker_id worker (ground arith) in
        subst (λ x. is_listed offline x ≡ true) (sym at) listed

    release_once :
        (x : Option Job)
        → Released offline o x
        → Released offline o
            (changed (may_reset j.id (some processing) worker j.started_at) (reset_row false) x)
    release_once none h = h
    release_once (some k) h =
        elim (Bool-cases (may_reset j.id (some processing) worker j.started_at k)) [
          | inr e ↦ rw e h
          | inl e ↦ rw e (frees e h)
        ]
      where
        frees :
            may_reset j.id (some processing) worker j.started_at k ≡ true
            → Released offline o (some k)
            → Released offline o (some (reset_row false k))
        frees e (inl same) = inr (k, sym same, ground arith, listed_here k e, refl)
        frees e (inr (k₀, was, st, off, now_is)) = absurd (not_processing k₀ e now_is)

    release-Keeps :
        Respects KeepsReleased
          (reset_job_to_pending j.id false (some processing) worker j.started_at)
    unfolding reset_job_to_pending exec_job_transition
    release-Keeps = statement-Respects KeepsReleased-frame (transition _ _) λ s h. (
      update_where-Keyed (may_reset j.id (some processing) worker j.started_at) (reset_row false)
          (λ _. refl) s.jobs h.0,
      rw
          (find_job-update_where (may_reset j.id (some processing) worker j.started_at)
            (reset_row false) (λ _. refl) id s.jobs)
          (release_once (find_job id s.jobs) h.1),
    )

  release_jobs-Keeps :
      (worker : String)
      → is_listed offline worker ≡ true
      → str_eq worker "" ≡ false
      → (js : List Job) → Respects KeepsReleased (release_jobs worker js)
  unfolding release_jobs
  release_jobs-Keeps worker listed named [] = pure-Respects KeepsReleased-frame tt
  release_jobs-Keeps worker listed named (j ∷ js) =
      try_bind-Respects KeepsReleased-frame _ _ (release-Keeps worker listed named j)
        (λ _. release_jobs-Keeps worker listed named js)

  release_listed-Keeps :
      (worker : String)
      → is_listed offline worker ≡ true
      → str_eq worker "" ≡ false
      → (r : Result (List Job)) → Respects KeepsReleased (release_listed worker r)
  unfolding release_listed
  release_listed-Keeps worker listed named (ok js) = release_jobs-Keeps worker listed named js
  release_listed-Keeps worker listed named (err e) = pure-Respects KeepsReleased-frame tt

  pub release_workers-Keeps :
      (ws : List WorkerHeartbeat)
      → All (λ w. (is_listed offline w.worker_id ≡ true) × (str_eq w.worker_id "" ≡ false)) ws
      → Respects KeepsReleased (release_workers ws)
  unfolding release_workers get_jobs_for_worker
  release_workers-Keeps [] h = pure-Respects KeepsReleased-frame tt
  release_workers-Keeps (w ∷ ws) h =
      try_bind-Respects KeepsReleased-frame (get_jobs_for_worker w.worker_id) _
        (query-Respects KeepsReleased-frame _)
        (λ jobs.
          >>=-Respects KeepsReleased-frame (release_listed w.worker_id jobs) _
            (release_listed-Keeps w.worker_id h.0.0 h.0.1 jobs) (λ _. release_workers-Keeps ws h.1))

-- Every worker of a list is listed in it.
pub All-listed : (ws : List WorkerHeartbeat) → All (λ w. is_listed ws w.worker_id ≡ true) ws
All-listed [] = tt
All-listed (w ∷ ws) =
    (ground (arith, eq_refl w.worker_id), All-map _ _ (λ v h. ground arith) ws (All-listed ws))
