-- ===== src/Lifecycle.antt =====
-- The life of a job, as the abstract state machine that the tracker's statements implement.
-- The phase of an identifier is read off its row in the jobs table.
pub mod Lawful
pub mod Statements
pub mod Population
pub mod Claiming
use dark_stream.Common.{ℕ, ◌≡◌, ◌≢◌, Bool, true, false, List, Option, none, some, String, All}
use dark_stream.Models.{Status, pending, processing, completed, failed, cancelled, is_terminal, Job}
use dark_stream.Tracker.{Store}
use dark_stream.Tracker.Rows.{Keyed, find_job}

-- `running` names the worker that holds the job and the time when it was claimed.
pub data Phase : Type 0 where
  absent queued done broken dropped : Phase
  running : String → Option ℕ → Phase

abbrev pub phase_of : Status → String → Option ℕ → Phase
phase_of pending worker start = queued
phase_of processing worker start = running worker start
phase_of completed worker start = done
phase_of failed worker start = broken
phase_of cancelled worker start = dropped

abbrev pub phase : Option Job → Phase
phase none = absent
phase (some j) = phase_of j.status j.worker_id j.started_at

abbrev pub phase_in : Store → String → Phase
phase_in s id = phase (find_job id s.jobs)

-- The moves that the background monitors may make.
pub data MonitorEdge : Phase → Phase → Type 0 where
  release : {w : String} {t : Option ℕ} → MonitorEdge (running w t) queued
  expire : {w : String} {t : Option ℕ} → MonitorEdge (running w t) broken
  retry : MonitorEdge broken queued

-- What may be done besides: jobs may be handed to workers, finished jobs brought back, and rows deleted.
pub record Powers : Type 0 where
  pub claims : Bool
  pub reopens : Bool
  pub prunes : Bool

-- All the moves of the program, by what may be done.
pub data Edge (powers : Powers) : Phase → Phase → Type 0 where
  submit : Edge powers absent queued
  claim : (w : String) (t : ℕ) → powers.claims ≡ true → Edge powers queued (running w (some t))
  complete : {w : String} {t : Option ℕ} → Edge powers (running w t) done
  break : {w : String} {t : Option ℕ} → Edge powers (running w t) broken
  drop_queued : Edge powers queued dropped
  drop_running : {w : String} {t : Option ℕ} → Edge powers (running w t) dropped
  give_back : {w : String} {t : Option ℕ} → Edge powers (running w t) queued
  try_again : Edge powers broken queued
  reopen_done : powers.reopens ≡ true → Edge powers done queued
  reopen_dropped : powers.reopens ≡ true → Edge powers dropped queued
  prune_done : powers.prunes ≡ true → Edge powers done absent
  prune_broken : powers.prunes ≡ true → Edge powers broken absent
  prune_dropped : powers.prunes ≡ true → Edge powers dropped absent

-- Moves one after another.
pub data Reach (E : Phase → Phase → Type 0) (p : Phase) : Phase → Type 0 where
  here : Reach E p p
  next : {q r : Phase} → Reach E p q → E q r → Reach E p r

pub Reach-trans :
    {E : Phase → Phase → Type 0} {p q r : Phase} → Reach E p q → Reach E q r → Reach E p r
Reach-trans a here = a
Reach-trans a (next b e) = next (Reach-trans a b) e

-- What the columns of a row say of one another.
pub record IsConsistent (j : Job) : Type 0 where
  pub pending_unassigned : j.status ≡ pending → (j.worker_id ≡ "") × (j.started_at ≡ none)
  pub pending_clear : j.status ≡ pending → (j.completed_at ≡ none) × (j.error_message ≡ "")
  pub running_started : j.status ≡ processing → j.started_at ≢ none
  pub running_open : j.status ≡ processing → (j.completed_at ≡ none) × (j.error_message ≡ "")
  pub finished_dated : is_terminal j.status ≡ true → j.completed_at ≢ none
  pub completed_started : j.status ≡ completed → j.started_at ≢ none
  pub failed_started : j.status ≡ failed → j.started_at ≢ none

pub record Inv (s : Store) : Type 0 where
  pub keyed : Keyed s.jobs
  pub consistent : All IsConsistent s.jobs
