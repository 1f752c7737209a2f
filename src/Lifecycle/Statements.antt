-- ===== src/Lifecycle/Statements.antt =====
-- Each statement of the tracker keeps the invariant and moves jobs along the edges.
use dark_stream.Common.{
  ℤ, ℕ, ◌≡◌, refl, Bool, true, false, List, [], ◌∷◌, Option, none, some, String, arith, All,
  if◌then◌else◌, Bool-cases, inl, inr, ◌⊎◌,
}
use dark_stream.Models.{Job, Status, pending, processing, completed, failed, cancelled, is_terminal}
use dark_stream.Tracker.{pure, fail, job_not_found}
use dark_stream.Tracker.Jobs.{
  has_id, update_where, transition, exec_job_transition, update_job_priority, reset_job_to_pending,
  mark_job_completed, mark_job_failed, mark_job_failed_permanently, mark_job_cancelled,
}
use dark_stream.Tracker.Rows.{find_job, changed, find_job-update_where, update_where-Keyed}
use dark_stream.Lifecycle.{
  Powers, Phase, absent, queued, done, broken, dropped, phase, phase_of, Edge, MonitorEdge, Reach,
  here, next, IsConsistent, complete, break, drop_queued, drop_running, give_back, try_again,
  reopen_done, reopen_dropped, prune_done, prune_broken, prune_dropped, release, expire, retry,
}
use dark_stream.Lifecycle.Lawful.{Lawful, pure-Lawful, fail-Lawful, >>=-Lawful, statement-Lawful}

-- A conditional update whose change, on the rows that pass, follows an edge.
module _ (E : Phase → Phase → Type 0) (test : Job → Bool) (change : Job → Job)
    (keeps : (j : Job) → (change j).id ≡ j.id)
    (valid : (j : Job) → test j ≡ true → IsConsistent j → IsConsistent (change j))
    (edge : (j : Job) → test j ≡ true → Reach E (phase (some j)) (phase (some (change j)))) where
  update_where-IsConsistent :
      (js : List Job) → All IsConsistent js → All IsConsistent (update_where test change js)
  unfolding update_where
  update_where-IsConsistent [] h = tt
  update_where-IsConsistent (j ∷ js) h = elim (Bool-cases (test j)) [
    | inl e ↦ rw e (valid j e h.0, update_where-IsConsistent js h.1)
    | inr e ↦ rw e (h.0, update_where-IsConsistent js h.1)
  ]

  changed-Reach : (o : Option Job) → Reach E (phase o) (phase (changed test change o))
  changed-Reach none = here
  changed-Reach (some j) = elim (Bool-cases (test j)) [
    | inl e ↦ rw e (edge j e)
    | inr e ↦ rw e here
  ]

  pub exec_job_transition-Lawful : Lawful E (exec_job_transition test change)
  unfolding exec_job_transition
  exec_job_transition-Lawful = statement-Lawful E (transition test change) λ s v. record {
    inv = record {
      keyed = update_where-Keyed test change keeps s.jobs v.keyed;
      consistent = update_where-IsConsistent s.jobs v.consistent;
    };
    reach = λ id.
        rw (find_job-update_where test change keeps id s.jobs) (changed-Reach (find_job id s.jobs));
  }

pub one : {E : Phase → Phase → Type 0} {p q : Phase} → E p q → Reach E p q
one e = next here e

-- The edges of the single updates, by the status that their test asks for.
module _ (w : String) (t : Option ℕ) where
  complete_from :
      {powers : Powers}
      → (st : Status) → st ≡ processing
      → Reach (Edge powers) (phase_of st w t) done
  complete_from st e = rw e (one complete)

  break_from :
      {powers : Powers}
      → (st : Status) → st ≡ processing
      → Reach (Edge powers) (phase_of st w t) broken
  break_from st e = rw e (one break)

  expire_from : (st : Status) → st ≡ processing → Reach MonitorEdge (phase_of st w t) broken
  expire_from st e = rw e (one expire)

  release_from : (st : Status) → st ≡ processing → Reach MonitorEdge (phase_of st w t) queued
  release_from st e = rw e (one release)

  retry_from : (st : Status) → st ≡ failed → Reach MonitorEdge (phase_of st w t) queued
  retry_from st e = rw e (one retry)

  drop_from :
      {powers : Powers}
      → (st : Status) → (st ≡ pending) ⊎ (st ≡ processing)
      → Reach (Edge powers) (phase_of st w t) dropped
  drop_from st (inl e) = rw e (one drop_queued)
  drop_from st (inr e) = rw e (one drop_running)

  try_again_from :
      {powers : Powers} → (st : Status) → st ≡ failed → Reach (Edge powers) (phase_of st w t) queued
  try_again_from st e = rw e (one try_again)

  requeue_from :
      {powers : Powers}
      → powers.reopens ≡ true
      → (st : Status) → Reach (Edge powers) (phase_of st w t) queued
  requeue_from may pending = here
  requeue_from may processing = one give_back
  requeue_from may completed = one (reopen_done may)
  requeue_from may failed = one try_again
  requeue_from may cancelled = one (reopen_dropped may)

  pub prune_from :
      {powers : Powers}
      → powers.prunes ≡ true
      → (st : Status) → is_terminal st ≡ true
      → Reach (Edge powers) (phase_of st w t) absent
  prune_from may completed e = one (prune_done may)
  prune_from may failed e = one (prune_broken may)
  prune_from may cancelled e = one (prune_dropped may)
  prune_from may _ e = cc

pub mark_job_completed-Lawful :
    {powers : Powers}
    → (id worker : String) (size : ℤ) (sum : String) (start : Option ℕ) (now : ℕ)
    → Lawful (Edge powers) (mark_job_completed id worker size sum start now)
unfolding mark_job_completed
mark_job_completed-Lawful id worker size sum start now =
    exec_job_transition-Lawful (Edge _) _ _ (λ j. refl) (λ j h v. ground arith)
      (λ j h. complete_from j.worker_id j.started_at j.status (ground arith))

pub mark_job_failed-Lawful :
    {powers : Powers}
    → (id worker message : String) (start : Option ℕ) (now : ℕ)
    → Lawful (Edge powers) (mark_job_failed id worker message start now)
unfolding mark_job_failed
mark_job_failed-Lawful id worker message start now =
    exec_job_transition-Lawful (Edge _) _ _ (λ j. refl) (λ j h v. ground arith)
      (λ j h. break_from j.worker_id j.started_at j.status (ground arith))

pub mark_job_failed_permanently-Lawful :
    (id worker message : String) (completed_at : ℕ) (start : Option ℕ)
    → Lawful MonitorEdge (mark_job_failed_permanently id worker message completed_at start)
unfolding mark_job_failed_permanently
mark_job_failed_permanently-Lawful id worker message completed_at start =
    exec_job_transition-Lawful MonitorEdge _ _ (λ j. refl) (λ j h v. ground arith)
      (λ j h. expire_from j.worker_id j.started_at j.status (ground arith))

pub mark_job_cancelled-Lawful :
    {powers : Powers}
    → (id message : String) (start : Option ℕ) (now : ℕ)
    → Lawful (Edge powers) (mark_job_cancelled id message start now)
unfolding mark_job_cancelled
mark_job_cancelled-Lawful id message start now =
    exec_job_transition-Lawful (Edge _) _ _ (λ j. refl) (λ j h v. ground arith)
      (λ j h. drop_from j.worker_id j.started_at j.status (ground arith))

-- An operator may requeue a job whatever its status is.
pub reset_job_to_pending-Lawful :
    {powers : Powers}
    → powers.reopens ≡ true
    → (id : String) (again : Bool) (st : Option Status) (worker : String) (start : Option ℕ)
    → Lawful (Edge powers) (reset_job_to_pending id again st worker start)
unfolding reset_job_to_pending
reset_job_to_pending-Lawful may id again st worker start =
    exec_job_transition-Lawful (Edge _) _ _ (λ j. refl) (λ j h v. ground arith)
      (λ j h. requeue_from j.worker_id j.started_at may j.status)

-- A retry asks that the job has failed.
pub retried-Lawful :
    {powers : Powers}
    → (id : String) (again : Bool) (worker : String) (start : Option ℕ)
    → Lawful (Edge powers) (reset_job_to_pending id again (some failed) worker start)
unfolding reset_job_to_pending
retried-Lawful id again worker start =
    exec_job_transition-Lawful (Edge _) _ _ (λ j. refl) (λ j h v. ground arith)
      (λ j h. try_again_from j.worker_id j.started_at j.status (ground arith))

-- The monitors name the status that they expect, and so release or retry.
pub reset_processing-Lawful :
    (id : String) (again : Bool) (worker : String) (start : Option ℕ)
    → Lawful MonitorEdge (reset_job_to_pending id again (some processing) worker start)
unfolding reset_job_to_pending
reset_processing-Lawful id again worker start =
    exec_job_transition-Lawful MonitorEdge _ _ (λ j. refl) (λ j h v. ground arith)
      (λ j h. release_from j.worker_id j.started_at j.status (ground arith))

pub reset_failed-Lawful :
    (id : String) (again : Bool) (worker : String) (start : Option ℕ)
    → Lawful MonitorEdge (reset_job_to_pending id again (some failed) worker start)
unfolding reset_job_to_pending
reset_failed-Lawful id again worker start =
    exec_job_transition-Lawful MonitorEdge _ _ (λ j. refl) (λ j h v. ground arith)
      (λ j h. retry_from j.worker_id j.started_at j.status (ground arith))

pub update_job_priority-Lawful :
    {powers : Powers}
    → (id : String) (priority : ℕ) → Lawful (Edge powers) (update_job_priority id priority)
unfolding update_job_priority
update_job_priority-Lawful id priority =
    >>=-Lawful (Edge _) _ found
      (exec_job_transition (has_id id) (λ j. record j { priority = priority }))
      (exec_job_transition-Lawful (Edge _) _ _ (λ j. refl) (λ j h v. ground arith) (λ j h. here))
  where
    found :
        {powers : Powers}
        → (b : Bool) → Lawful (Edge powers) (if b then pure tt else fail job_not_found)
    found true = pure-Lawful (Edge _) tt
    found false = fail-Lawful (Edge _) (Unit {0}) job_not_found
