-- ===== src/Coordinator/Due.antt =====
-- With a database that works the retry monitor brings back every job that is due.
mod Query
use dark_stream.Common.{
  ℕ, ◌≡◌, refl, sym, ◌∙◌, ap, subst, inl, inr, true, false, List, [], ◌∷◌, ◌++◌, Option, none, some,
  String, All, All-map, Bool-cases, arith, str_eq, str_eq-true, filter, filter-All, All-filter_inv,
  sort_by, All-sort_by, All-sort_by_inv, eq_refl,
}
use mathlib.Core.Bool.{false≢true}
use dark_stream.Models.{Job, failed}
use dark_stream.Metrics.{Effect}
use dark_stream.Tracker.{Error, Store, Result, ok, err, M, pure, ◌>>=◌, reading}
use dark_stream.Tracker.Jobs.{
  exec_job_transition, transition, reset_job_to_pending, may_reset, reset_row, matches_start,
}
use dark_stream.Tracker.Lookup.{get_retryable_failed_jobs, is_retryable, older}
use dark_stream.Tracker.Outcomes.{called, quiet_then, bind_cases}
use dark_stream.Tracker.Rows.{
  find_job, find_job_id, changed, find_job-update_where, IsFound, Keyed, Keyed-All, All-find_job,
}
use dark_stream.Tracker.Batch.{in_batch}
use dark_stream.Tracker.Fetching.{try_quiet}
use dark_stream.Tracker.Respects.{IsFrame, Respects, statement-Respects}
use dark_stream.Coordinator.{
  refresh_queue_depth, monitor_failed_jobs, retry_jobs, retry_job, retry_failed, is_backing_off,
  after_retry,
}
use dark_stream.Coordinator.Monitors.{Spares, Spares-frame, reset-Spares}
use dark_stream.Coordinator.Frames.{
  retry_jobs-Respects, retry_failed-Respects, retry_job-Respects, after_retries-Respects,
}
use dark_stream.Coordinator.Due.Query.{listed_due, own_rows}

-- A row that is no longer failed stays as it is.
retry_rest-Spares : (now : ℕ) (js : List Job) → Respects (Spares failed) (retry_jobs now js)
retry_rest-Spares now js = retry_jobs-Respects (Spares-frame failed) now js (each js)
  where
    each :
        (ks : List Job)
        → All (λ j. is_backing_off now j ≡ false → Respects (Spares failed) (retry_failed j)) ks
    each [] = tt
    each (j ∷ ks) = (
      (λ _.
          retry_failed-Respects (Spares-frame failed) j
            (reset-Spares failed j.id true "" j.started_at)),
      each ks,
    )

after-Spares :
    (effects : List Effect)
    → Respects (Spares failed) (refresh_queue_depth >>= λ depth. pure (effects ++ depth))
after-Spares effects = after_retries-Respects (Spares-frame failed) effects

matches_itself : (o : Option ℕ) → matches_start o o ≡ true
matches_itself none = refl
matches_itself (some t) = ground arith

module _ (now : ℕ) (id : String) (k : Job) (ready : is_retryable k ≡ true)
    (due : is_backing_off now k ≡ false) where
  abbrev Waits : Store → Type 0
  Waits t = (t.faults ≡ []) × (find_job id t.jobs ≡ some k)

  abbrev Back : Store → Type 0
  Back t = find_job id t.jobs ≡ some (reset_row true k)

  retried_now : (t : Store) → Waits t → Back (retry_job now k t).1
  unfolding retry_job retry_failed reset_job_to_pending exec_job_transition
  retried_now t h =
      let test : may_reset k.id (some failed) "" k.started_at k ≡ true =
        ground (arith, eq_refl k.id, matches_itself k.started_at) in
      rw due (
        try_quiet (transition (may_reset k.id (some failed) "" k.started_at) (reset_row true))
          (λ r. pure (after_retry r)) t (λ r. Back r.1) h.0
          (find_job-update_where (may_reset k.id (some failed) "" k.started_at) (reset_row true)
              (λ _. refl) id t.jobs
            ∙ rw (h.1, test) refl))

  -- A retry of another job.
  module _ (j : Job) (other : str_eq id j.id ≡ false) where
    abbrev Unaffected : Store → Store → Type 0
    Unaffected s t = Waits s → Waits t

    Unaffected-frame : IsFrame Unaffected
    Unaffected-frame = record {
      same = λ s t e q h. (q h.0, rw e (h.1));
      trans = λ s t u f g h. g (f h);
    }

    misses_it : may_reset j.id (some failed) "" j.started_at k ≡ true → k.id ≡ id → ⊥
    misses_it e at =
        let same : id ≡ j.id = sym at ∙ str_eq-true k.id j.id (ground arith) in
        absurd (false≢true (sym other ∙ subst (λ x. str_eq id x ≡ true) same (eq_refl id)))

    stays :
        k.id ≡ id
        → changed (may_reset j.id (some failed) "" j.started_at) (reset_row true) (some k) ≡ some k
    stays at = elim (Bool-cases (may_reset j.id (some failed) "" j.started_at k)) [
      | inl e ↦ absurd (misses_it e at)
      | inr e ↦ rw e refl
    ]

    retry_other : Respects Unaffected (retry_job now j)
    unfolding reset_job_to_pending exec_job_transition
    retry_other = retry_job-Respects Unaffected-frame now j λ _.
        retry_failed-Respects Unaffected-frame j (
          statement-Respects Unaffected-frame (transition _ _) λ s h. (
            h.0,
            find_job-update_where (may_reset j.id (some failed) "" j.started_at) (reset_row true)
                  (λ _. refl) id s.jobs
                ∙ rw (h.1) (stays (find_job_id id s.jobs h.1)),
          ))

  Back-stays :
      (f : M (List Effect)) → Respects (Spares failed) f → (t : Store) → Back t → Back (f t).1
  Back-stays f h t b = h.apply t id (rw b refl) ∙ b

  retry_job-ok : (j : Job) (t : Store) → (a : List Effect) × ((retry_job now j t).0 ≡ ok a)
  unfolding retry_job retry_failed
  retry_job-ok j t = elim (Bool-cases (is_backing_off now j)) [
    | inl e ↦ rw e ([], refl)
    | inr e ↦ rw e (_, refl)
  ]

  -- One round of the loop, with what the rest of it does.
  one_round :
      (j : Job) (js : List Job)
      → (j.id ≡ id → j ≡ k)
      → in_batch (j ∷ js) id ≡ true
      → (in_batch js id ≡ true → (u : Store) → Waits u → Back (retry_jobs now js u).1)
      → (t : Store) → Waits t
      → (u : Store) (r : Result (List Effect)) → retry_job now j t ≡ (r, u)
      → Back (retry_jobs now js u).1
  one_round j js own found rest t w u r h = elim (Bool-cases (str_eq id j.id)) [
    | inl hit ↦
        let same : j ≡ k = own (sym (str_eq-true id j.id hit)) in
        let b : Back (retry_job now j t).1 =
          subst (λ x. Back (retry_job now x t).1) (sym same) (retried_now t w) in
        Back-stays (retry_jobs now js) (retry_rest-Spares now js) u (subst Back (ap (λ x. x.1) h) b)
    | inr miss ↦
        let left : in_batch js id ≡ true = rw miss at found in
        rest left u (subst Waits (ap (λ x. x.1) h) ((retry_other j miss).apply t w))
  ]

  -- The loop reaches the job.
  retries_it :
      (js : List Job)
      → All (λ j. j.id ≡ id → j ≡ k) js
      → in_batch js id ≡ true
      → (t : Store) → Waits t
      → Back (retry_jobs now js t).1
  unfolding retry_jobs
  retries_it [] own found t w = cc
  retries_it (j ∷ js) own found t w =
      bind_cases (retry_job now j) _ t (λ r. Back r.1)
        (λ e u h. absurd (not_both (sym (retry_job-ok j t).1 ∙ ap (λ r. r.0) h)))
        (λ a u h.
          bind_cases (retry_jobs now js) _ u (λ r. Back r.1)
            (λ e v g.
              subst Back (ap (λ r. r.1) g)
                (one_round j js own.0 found (retries_it js own.1) t w u (ok a) h))
            (λ b v g.
              subst Back (ap (λ r. r.1) g)
                (one_round j js own.0 found (retries_it js own.1) t w u (ok a) h)))
    where
      not_both : {a : List Effect} {e : Error} → ok a ≡ err e → ⊥
      not_both h = cc

-- From a keyed table and with a database that serves every call, a tick of the retry monitor puts every failed job
-- that has retries left and whose delay is over back into the queue, with one more retry counted.
pub monitor_failed_jobs_brings_back :
    (now : ℕ) (s : Store) (id : String) (k : Job)
    → Keyed s.jobs
    → s.faults ≡ []
    → find_job id s.jobs ≡ some k
    → is_retryable k ≡ true
    → is_backing_off now k ≡ false
    → find_job id (monitor_failed_jobs now s).1.jobs ≡ some (reset_row true k)
unfolding monitor_failed_jobs get_retryable_failed_jobs
monitor_failed_jobs_brings_back now s id k keyed quiet found ready due =
    quiet_then (reading (λ t. sort_by older (filter is_retryable t.jobs))) _ s
      (λ r. Back now id k ready due r.1) quiet
      (bind_cases (retry_jobs now due_jobs) _ (called s) (λ r. Back now id k ready due r.1)
        (λ e u h. subst (Back now id k ready due) (ap (λ r. r.1) h) all_retried)
        (λ a u h.
          Back-stays now id k ready due _ (after-Spares a) u
            (subst (Back now id k ready due) (ap (λ r. r.1) h) all_retried)))
  where
    due_jobs : List Job
    due_jobs = sort_by older (filter is_retryable s.jobs)

    all_retried :
        Back now id k ready due
          (retry_jobs now (sort_by older (filter is_retryable s.jobs)) (called s)).1
    all_retried =
        retries_it now id k ready due (sort_by older (filter is_retryable s.jobs))
          (own_rows id s.jobs k keyed found) (listed_due id s.jobs k found ready) (called s)
          (rw quiet refl, found)
