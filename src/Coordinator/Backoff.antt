-- ===== src/Coordinator/Backoff.antt =====
-- When the retry monitor brings back a failed job: after a delay that doubles with each retry.

use dark_stream.Common.{
  ltb, ◌≢◌, zero, suc, min, ℕ, ◌≡◌, refl, sym, ◌∙◌, ap, subst, ◌^◌, ◌⊎◌, inl, inr, true, false,
  List, [], ◌∷◌, Option, none, some, String, if◌then◌else◌, All, Bool-cases, arith, str_eq-true,
  filter, filter-All, All-filter, sort_by, All-sort_by,
}
use dark_stream.Models.{Job, failed, pending}
use dark_stream.Tracker.{Store, reading}
use dark_stream.Tracker.Jobs.{
  exec_job_transition, transition, reset_job_to_pending, may_reset, reset_row,
}
use dark_stream.Tracker.Lookup.{get_retryable_failed_jobs, is_retryable, older}
use dark_stream.Tracker.Outcomes.{called, statement_then}
use dark_stream.Tracker.Rows.{
  find_job, find_job_id, changed, find_job-update_where, IsFound, Keyed, Keyed-All,
}
use dark_stream.Tracker.Respects.{IsFrame, Respects, >>=-Respects, statement-Respects}
use dark_stream.Coordinator.{
  monitor_failed_jobs, retry_jobs, retry_failed, is_backing_off, delay_minutes,
}
use dark_stream.Coordinator.Monitors.{has_status}
use dark_stream.Coordinator.Frames.{
  retry_jobs-Respects, retry_failed-Respects, after_retries-Respects,
}

-- The delay before a retry is 2 ^ r minutes after `r` retries for the first six, and an hour from then on.
pub delay_minutes_schedule : (r : ℕ) → delay_minutes r ≡ (if ltb r 6 then 2 ^ r else 60)
unfolding delay_minutes
delay_minutes_schedule zero = refl
delay_minutes_schedule (suc zero) = refl
delay_minutes_schedule (suc (suc zero)) = refl
delay_minutes_schedule (suc (suc (suc zero))) = refl
delay_minutes_schedule (suc (suc (suc (suc zero)))) = refl
delay_minutes_schedule (suc (suc (suc (suc (suc zero))))) = refl
delay_minutes_schedule (suc (suc (suc (suc (suc (suc r)))))) =
    let many = suc (suc (suc (suc (suc (suc r))))) in
    let capped : min many 6 ≡ 6 = omega arith in
    let late : ltb many 6 ≡ false = ground arith in rw (capped, late) refl

-- What a tick may have made of the row `o`: nothing, or a retry that was due.
abbrev pub Retried : ℕ → Option Job → Option Job → Type 0
Retried now o o' =
    (o' ≡ o)
    ⊎ ((k : Job) × (o ≡ some k)
        × (is_retryable k ≡ true)
        × (is_backing_off now k ≡ false)
        × (o' ≡ some (reset_row true k)))

module _ (now : ℕ) (id : String) (o : Option Job) where
  abbrev Keeps : Store → Store → Type 0
  Keeps s t = Retried now o (find_job id s.jobs) → Retried now o (find_job id t.jobs)

  Keeps-frame : IsFrame Keeps
  Keeps-frame = record { same = λ s t e _ h. rw e h; trans = λ s t u f g h. g (f h) }

  -- A job that was read, with the row that its identifier had then.
  module _ (j : Job) (ready : is_retryable j ≡ true) (due : is_backing_off now j ≡ false)
      (read : j.id ≡ id → o ≡ some j) where
    hit :
        {k : Job}
        → may_reset j.id (some failed) "" j.started_at k ≡ true
        → (k.id ≡ id)
        → some k ≡ o
        → o ≡ some j
    hit {k} e at same = read (sym (str_eq-true k.id j.id (ground arith)) ∙ at)

    same_row : {k : Job} → o ≡ some j → some k ≡ o → k ≡ j
    same_row h same = cc

    not_pending :
        {k : Job} (k₀ : Job)
        → may_reset j.id (some failed) "" j.started_at k ≡ true
        → some k ≢ some (reset_row true k₀)
    not_pending {k} k₀ e same =
        let p : has_status pending (some k) ≡ true =
          subst (λ x. has_status pending x ≡ true) (sym same) refl in
        ground arith

    reset_once :
        (x : Option Job)
        → ((k : Job) → x ≡ some k → k.id ≡ id)
        → Retried now o x
        → Retried now o (changed (may_reset j.id (some failed) "" j.started_at) (reset_row true) x)
    reset_once none ids h = h
    reset_once (some k) ids h = elim (Bool-cases (may_reset j.id (some failed) "" j.started_at k)) [
      | inr e ↦ rw e h
      | inl e ↦ rw e (resets e h)
    ]
      where
        resets :
            may_reset j.id (some failed) "" j.started_at k ≡ true
            → Retried now o (some k)
            → Retried now o (some (reset_row true k))
        resets e (inl same) = inr (
          j,
          hit e (ids k refl) same,
          ready,
          due,
          ap (λ x. some (reset_row true x)) (same_row (hit e (ids k refl) same) same),
        )
        resets e (inr (k₀, was, can, ok, now_is)) = absurd (not_pending k₀ e now_is)

    retry_failed-Keeps : Respects Keeps (retry_failed j)
    unfolding reset_job_to_pending
    retry_failed-Keeps = retry_failed-Respects Keeps-frame j (
        unfold exec_job_transition in
        statement-Respects Keeps-frame (transition _ _) λ s h.
          rw
            (find_job-update_where (may_reset j.id (some failed) "" j.started_at) (reset_row true)
              (λ _. refl) id s.jobs)
            (reset_once (find_job id s.jobs) (λ k. find_job_id id s.jobs) h))

  -- The rows that the query reads.
  abbrev Due : Job → Type 0
  Due j = (is_retryable j ≡ true) × (j.id ≡ id → o ≡ some j)

  each_retry :
      (js : List Job)
      → All Due js
      → All (λ j. is_backing_off now j ≡ false → Respects Keeps (retry_failed j)) js
  each_retry [] h = tt
  each_retry (j ∷ js) h = ((λ due. retry_failed-Keeps j h.0.0 due h.0.1), each_retry js h.1)

read_rows :
    (now : ℕ) (id : String) (js : List Job)
    → Keyed js
    → All (Due now id (find_job id js)) (sort_by older (filter is_retryable js))
read_rows now id js h =
    let found : All (IsFound js) (filter is_retryable js) =
      filter-All (IsFound js) is_retryable js (Keyed-All js h) in
    All-sort_by older (Due now id (find_job id js)) (filter is_retryable js)
      (both (filter is_retryable js) found (All-filter is_retryable js))
  where
    both :
        (ks : List Job)
        → All (IsFound js) ks
        → All (λ k. is_retryable k ≡ true) ks
        → All (Due now id (find_job id js)) ks
    both [] f r = tt
    both (k ∷ ks) f r =
        ((r.0, λ same. subst (λ x. find_job x js ≡ some k) same f.0), both ks f.1 r.1)

-- From a keyed table a tick of the retry monitor, whatever calls of the database fail, leaves the row of an identifier
-- as it was, or returns it to the queue with one more retry counted: then the row was failed with
-- retries left, and its delay was over.
pub monitor_failed_jobs_retries :
    (now : ℕ) (s : Store) (id : String)
    → Keyed s.jobs
    → Retried now (find_job id s.jobs) (find_job id (monitor_failed_jobs now s).1.jobs)
unfolding monitor_failed_jobs get_retryable_failed_jobs
monitor_failed_jobs_retries now s id keyed =
    statement_then (reading (λ s. sort_by older (filter is_retryable s.jobs))) _ s
      (λ r. Retried now (find_job id s.jobs) (find_job id r.1.jobs)) (inl refl)
      ((>>=-Respects (Keeps-frame now id (find_job id s.jobs)) (retry_jobs now _) _
          (retry_jobs-Respects (Keeps-frame now id (find_job id s.jobs)) now _
            (each_retry now id (find_job id s.jobs) _ (read_rows now id s.jobs keyed)))
          (after_retries-Respects (Keeps-frame now id (find_job id s.jobs)))).apply
        (called s) (inl refl))
