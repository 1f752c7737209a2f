-- ===== src/Coordinator/Monitors.antt =====
-- The two monitors move jobs along the monitors' edges only, and leave every job alone that is
-- neither running nor failed.
use dark_stream.Common.{
  ℕ, ◌≡◌, refl, sym, ◌∙◌, ap, Bool, true, false, List, [], ◌∷◌, Option, none, some, String, All,
  Bool-cases, inl, inr, arith,
}
use mathlib.Core.Bool.{false≢true}
use dark_stream.Models.{status_eq, Job, Status, processing, failed}
use dark_stream.Tracker.{Store}
use dark_stream.Tracker.Jobs.{
  exec_job_transition, transition, reset_job_to_pending, mark_job_failed_permanently,
}
use dark_stream.Tracker.Lookup.{get_retryable_failed_jobs}
use dark_stream.Tracker.Rows.{find_job, changed, find_job-update_where}
use dark_stream.Tracker.Respects.{
  IsFrame, Respects, >>=-Respects, query-Respects, statement-Respects,
}
use dark_stream.Lifecycle.{Inv, MonitorEdge}
use dark_stream.Lifecycle.Lawful.{Moves, Evolves-frame, Lawful}
use dark_stream.Lifecycle.Statements.{
  reset_processing-Lawful, reset_failed-Lawful, mark_job_failed_permanently-Lawful,
}
use dark_stream.Coordinator.{
  retry_failed, monitor_worker_health, monitor_failed_jobs, retry_jobs, is_backing_off,
}
use dark_stream.Coordinator.Frames.{
  monitor_worker_health-Respects, retry_jobs-Respects, retry_failed-Respects,
  after_retries-Respects,
}

-- A tick of the retry monitor keeps to what its resets keep to.
pub monitor_failed_jobs-Respects :
    {R : Store → Store → Type 0} (frame : IsFrame R)
    → ((id : String) (start : Option ℕ)
        → Respects R (reset_job_to_pending id true (some failed) "" start))
    → (now : ℕ) → Respects R (monitor_failed_jobs now)
unfolding monitor_failed_jobs get_retryable_failed_jobs
monitor_failed_jobs-Respects {R} frame reset now =
    >>=-Respects frame _ _ (query-Respects frame _) (λ failures.
      >>=-Respects frame (retry_jobs now failures) _
        (retry_jobs-Respects frame now failures (each failures)) (after_retries-Respects frame))
  where
    each :
        (js : List Job) → All (λ j. is_backing_off now j ≡ false → Respects R (retry_failed j)) js
    each [] = tt
    each (j ∷ js) = ((λ _. retry_failed-Respects frame j (reset j.id j.started_at)), each js)

pub monitor_worker_health-Lawful :
    (message : ℕ → ℕ → String) (timeout now : ℕ)
    → Lawful MonitorEdge (monitor_worker_health message timeout now)
monitor_worker_health-Lawful message timeout now =
    monitor_worker_health-Respects (Evolves-frame MonitorEdge) reset_processing-Lawful
      mark_job_failed_permanently-Lawful message timeout now

pub monitor_failed_jobs-Lawful : (now : ℕ) → Lawful MonitorEdge (monitor_failed_jobs now)
monitor_failed_jobs-Lawful now =
    monitor_failed_jobs-Respects (Evolves-frame MonitorEdge)
      (λ id start. reset_failed-Lawful id true "" start) now

-- From a store that satisfies the invariant a tick of the health monitor leads to one that does, and every
-- job that it moves goes from a worker to the queue or to failed, whatever calls of the database fail.
pub monitor_worker_health-Moves :
    (message : ℕ → ℕ → String) (timeout now : ℕ) (s : Store)
    → Inv s
    → Moves MonitorEdge s (monitor_worker_health message timeout now s).1
monitor_worker_health-Moves message timeout now s v =
    (monitor_worker_health-Lawful message timeout now).apply s v

-- From a store that satisfies the invariant a tick of the retry monitor leads to one that does, and every
-- job moves along the monitors' edges, whatever calls of the database fail.
pub monitor_failed_jobs-Moves :
    (now : ℕ) (s : Store) → Inv s → Moves MonitorEdge s (monitor_failed_jobs now s).1
monitor_failed_jobs-Moves now s v = (monitor_failed_jobs-Lawful now).apply s v

-- Whether there is a row, and it has the status.
abbrev pub has_status : Status → Option Job → Bool
has_status st none = false
has_status st (some j) = status_eq j.status st

-- Every row that has another status than `st` stays as it is.
abbrev pub Spares : Status → Store → Store → Type 0
Spares st s t =
    (id : String)
    → has_status st (find_job id s.jobs) ≡ false
    → find_job id t.jobs ≡ find_job id s.jobs

pub Spares-frame : (st : Status) → IsFrame (Spares st)
Spares-frame st = record {
  same = λ s t e _ id h. ap (find_job id) e;
  trans = λ s t u f g id h. g id (rw (f id h) h) ∙ f id h;
}

module _ (st : Status) (test : Job → Bool) (change : Job → Job)
    (keeps : (j : Job) → (change j).id ≡ j.id)
    (busy : (j : Job) → test j ≡ true → has_status st (some j) ≡ true) where
  changed_spared : (o : Option Job) → has_status st o ≡ false → changed test change o ≡ o
  changed_spared none h = refl
  changed_spared (some j) h = elim (Bool-cases (test j)) [
    | inl e ↦ absurd (false≢true (sym h ∙ busy j e))
    | inr e ↦ rw e
  ]

  transition-Spares : Respects (Spares st) (exec_job_transition test change)
  unfolding exec_job_transition
  transition-Spares = statement-Respects (Spares-frame st) (transition test change) λ s id h.
      find_job-update_where test change keeps id s.jobs ∙ changed_spared (find_job id s.jobs) h

pub reset-Spares :
    (st : Status) (id : String) (again : Bool) (worker : String) (start : Option ℕ)
    → Respects (Spares st) (reset_job_to_pending id again (some st) worker start)
unfolding reset_job_to_pending
reset-Spares st id again worker start = transition-Spares st _ _ (λ j. refl) (λ j e. ground arith)

mark_job_failed_permanently-Spares :
    (id worker message : String) (now : ℕ) (start : Option ℕ)
    → Respects (Spares processing) (mark_job_failed_permanently id worker message now start)
unfolding mark_job_failed_permanently
mark_job_failed_permanently-Spares id worker message now start =
    transition-Spares processing _ _ (λ j. refl) (λ j e. ground arith)

-- A tick of the health monitor leaves every row as it is that is not in processing when the tick
-- begins, whatever calls of the database fail.
pub monitor_worker_health_spares :
    (message : ℕ → ℕ → String) (timeout now : ℕ) (s : Store) (id : String)
    → has_status processing (find_job id s.jobs) ≡ false
    → find_job id (monitor_worker_health message timeout now s).1.jobs ≡ find_job id s.jobs
monitor_worker_health_spares message timeout now s =
    (monitor_worker_health-Respects (Spares-frame processing) (reset-Spares processing)
        mark_job_failed_permanently-Spares message timeout now).apply
      s

-- A tick of the retry monitor leaves every row as it is that is not failed when the tick begins,
-- whatever calls of the database fail; so a cancelled job is never brought back.
pub monitor_failed_jobs_spares :
    (now : ℕ) (s : Store) (id : String)
    → has_status failed (find_job id s.jobs) ≡ false
    → find_job id (monitor_failed_jobs now s).1.jobs ≡ find_job id s.jobs
monitor_failed_jobs_spares now s =
    (monitor_failed_jobs-Respects (Spares-frame failed)
        (λ id start. reset-Spares failed id true "" start) now).apply
      s
