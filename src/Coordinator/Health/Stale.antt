-- ===== src/Coordinator/Health/Stale.antt =====
-- Stale jobs are retried, or failed once their retries are used up.
use dark_stream.Common.{
  ℕ, ◌≡◌, refl, sym, ◌∙◌, ap, subst, ◌⊎◌, inl, inr, Bool, true, false, List, [], ◌∷◌, ◌++◌, Option,
  none, some, String, if◌then◌else◌, All, Bool-cases, arith, str_eq-true, leb,
}
use mathlib.Core.Bool.{false≢true}
use dark_stream.Models.{Job, processing}
use dark_stream.Metrics.{Effect, refresh_queue_depth, set_worker_counts}
use dark_stream.Tracker.{Store, ok}
use dark_stream.Tracker.Jobs.{
  exec_job_transition, transition, reset_job_to_pending, reset_row, failed_row,
  mark_job_failed_permanently,
}
use dark_stream.Tracker.Lookup.{is_stale}
use dark_stream.Tracker.Rows.{find_job, find_job_id, changed, find_job-update_where}
use dark_stream.Tracker.Respects.{
  IsFrame, Respects, >>=-Respects, statement-Respects, pure-Respects, try_bind-Respects,
}
use dark_stream.Coordinator.{
  expire_job, expire_jobs, expire_listed, fail_stale, retry_stale, after_retry,
}
use dark_stream.Coordinator.Monitors.{has_status}
use dark_stream.Coordinator.Frames.{after_expiry-Respects, refresh_queue_depth-Respects}

-- What becomes of a stale job.
abbrev pub expired_row : (ℕ → ℕ → String) → ℕ → Job → Job
expired_row message now k =
    if leb k.max_retries k.retry_count
    then failed_row k.worker_id (message k.retry_count k.max_retries) now k
    else reset_row true k

-- A row after the stale jobs have been dealt with.
abbrev pub Expired : (ℕ → ℕ → String) → ℕ → ℕ → Option Job → Option Job → Type 0
Expired message timeout now o o' =
    (o' ≡ o)
    ⊎ ((k : Job) × (o ≡ some k)
        × (is_stale timeout now k ≡ true)
        × (o' ≡ some (expired_row message now k)))

expired_not_running :
    (message : ℕ → ℕ → String) (now : ℕ) (k : Job)
    → has_status processing (some (expired_row message now k)) ≡ false
expired_not_running message now k = elim (Bool-cases (leb k.max_retries k.retry_count)) [
  | inl e ↦ rw e refl
  | inr e ↦ rw e refl
]

module _ (message : ℕ → ℕ → String) (timeout now : ℕ) (id : String) (o : Option Job) where
  abbrev pub KeepsExpired : Store → Store → Type 0
  KeepsExpired s t =
      Expired message timeout now o (find_job id s.jobs)
      → Expired message timeout now o (find_job id t.jobs)

  KeepsExpired-frame : IsFrame KeepsExpired
  KeepsExpired-frame = record { same = λ s t e _ h. rw e h; trans = λ s t u f g h. g (f h) }

  module _ (j : Job) (stale : is_stale timeout now j ≡ true) (read : j.id ≡ id → o ≡ some j) where
    same_job : {k : Job} → o ≡ some j → some k ≡ o → k ≡ j
    same_job h same = cc

    -- An update that is made to a running row of the identifier of `j`.
    module _ (test : Job → Bool) (change : Job → Job)
        (own : (k : Job) → test k ≡ true → (k.id ≡ j.id) × (has_status processing (some k) ≡ true))
        (right : change j ≡ expired_row message now j)
        (keeps : (k : Job) → (change k).id ≡ k.id) where
      expire_once :
          (x : Option Job)
          → ((k : Job) → x ≡ some k → k.id ≡ id)
          → Expired message timeout now o x
          → Expired message timeout now o (changed test change x)
      expire_once none ids h = h
      expire_once (some k) ids h = elim (Bool-cases (test k)) [
        | inr e ↦ rw e h
        | inl e ↦ rw e (expires e h)
      ]
        where
          expires :
              test k ≡ true
              → Expired message timeout now o (some k)
              → Expired message timeout now o (some (change k))
          expires e (inl same) =
              let at : o ≡ some j = read (sym ((own k e).0) ∙ ids k refl) in
              inr (
                j,
                at,
                stale,
                ap (λ x. some (change x)) (same_job at same) ∙ ap (λ x. some x) right,
              )
          expires e (inr (k₀, was, st, now_is)) = absurd (
              false≢true (
                sym (expired_not_running message now k₀)
                ∙ subst (λ x. has_status processing x ≡ true) now_is ((own k e).1)))

      expire-Keeps : Respects KeepsExpired (exec_job_transition test change)
      unfolding exec_job_transition
      expire-Keeps = statement-Respects KeepsExpired-frame (transition test change) λ s h.
          rw (find_job-update_where test change keeps id s.jobs)
            (expire_once (find_job id s.jobs) (λ k. find_job_id id s.jobs) h)

    expire_job-Keeps : Respects KeepsExpired (expire_job message now j)
    unfolding expire_job fail_stale retry_stale mark_job_failed_permanently reset_job_to_pending
    expire_job-Keeps = elim (Bool-cases (leb j.max_retries j.retry_count)) [
      | inl e ↦ rw e (
          try_bind-Respects KeepsExpired-frame _ _
            (expire-Keeps _ _ (λ k t. (str_eq-true k.id j.id (ground arith), ground arith))
              (rw e refl) (λ k. refl))
            (after_expiry-Respects KeepsExpired-frame j.id))
      | inr e ↦ rw e (
          try_bind-Respects KeepsExpired-frame _ _
            (expire-Keeps _ _ (λ k t. (str_eq-true k.id j.id (ground arith), ground arith))
              (rw e refl) (λ k. refl))
            (λ r. pure-Respects KeepsExpired-frame (after_retry r)))
    ]

  abbrev pub Overdue : Job → Type 0
  Overdue j = (is_stale timeout now j ≡ true) × (j.id ≡ id → o ≡ some j)

  expire_jobs-Keeps :
      (js : List Job) → All Overdue js → Respects KeepsExpired (expire_jobs message now js)
  unfolding expire_jobs
  expire_jobs-Keeps [] h = pure-Respects KeepsExpired-frame []
  expire_jobs-Keeps (j ∷ js) h =
      >>=-Respects KeepsExpired-frame (expire_job message now j) _ (expire_job-Keeps j h.0.0 h.0.1)
        (λ first.
          >>=-Respects KeepsExpired-frame (expire_jobs message now js) _ (expire_jobs-Keeps js h.1)
            (λ rest. pure-Respects KeepsExpired-frame (first ++ rest)))

  pub expire_listed-Keeps :
      (before : List Effect) (total active : ℕ) (js : List Job)
      → All Overdue js
      → Respects KeepsExpired (expire_listed message now before total active (ok js))
  unfolding expire_listed
  expire_listed-Keeps before total active js h =
      >>=-Respects KeepsExpired-frame (expire_jobs message now js) _ (expire_jobs-Keeps js h)
        (λ expired.
          >>=-Respects KeepsExpired-frame refresh_queue_depth _
            (refresh_queue_depth-Respects KeepsExpired-frame)
            (λ depth.
              pure-Respects KeepsExpired-frame
                (before ++ expired ++ set_worker_counts total active ∷ depth)))
