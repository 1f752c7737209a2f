-- ===== src/Server/Verdicts/Reports.antt =====
-- `JobComplete` and `JobFailed`: only the worker that holds a job ends it, and it is told so.
use dark_stream.Common.{
  ◌∷◌, subst, eq_iff, ℕ, ◌≡◌, refl, sym, true, false, List, [], ◌++◌, Option, none, some, String,
  ◌⊎◌, inl, inr, arith, str_eq, str_eq-true, eq_refl,
}
use dark_stream.Models.{Job, processing, status_eq}
use dark_stream.Metrics.{record_finished, record_failed, Effect}
use dark_stream.Tracker.{Store, Result, M, ◌>>=◌, try, statement}
use dark_stream.Tracker.Jobs.{
  has_id, is_held_by, matches_start, transition, exec_job_transition, mark_job_completed,
  completed_row, mark_job_failed, failed_row,
}
use dark_stream.Tracker.Outcomes.{called}
use dark_stream.Tracker.Rows.{find_job, find_job_id, Keyed}
use dark_stream.Tracker.Fetching.{looked_up, fetch_then, fetch_quiet}
use dark_stream.Server.{empty, answer, Method, post, Response}
use dark_stream.Server.Reports.{
  elapsed, completion_effects, answer_report, notice, CompleteRequest, complete_fetched,
  complete_decoded, job_complete, FailRequest, fail_fetched, fail_decoded, job_failed,
}
use dark_stream.Server.Verdicts.{
  code_of, TurnedDown, Answers, Updated, update-Verdict, update_succeeds, only-cases, unless-cases,
  turned_down,
}

answer_report-Answers :
    (event : String) (effects : List Effect) (id : String)
    → Answers (answer_report event effects id)
unfolding answer_report
answer_report-Answers event effects id = record {
  refused = λ e t. turned_down 500 t (λ e. omega arith);
  conflict = λ t. turned_down 409 t (λ e. omega arith);
  done = λ t.
      fetch_then id (λ fetched. answer empty (effects ++ notice event fetched)) t
        (λ r. (code_of r.0 ≡ 200) × (r.1.jobs ≡ t.jobs)) (refl, refl) (refl, refl);
}

pub matches_start_self : (o : Option ℕ) → matches_start o o ≡ true
matches_start_self none = refl
matches_start_self (some t) = ground arith

-- A worker's report on the job that it holds: what `k` is then, and what has become of its row.
abbrev pub Reported : (Job → Job) → String → String → Store → Result Response × Store → Type 0
Reported change id worker s r =
    (k : Job) × (find_job id s.jobs ≡ some k)
    × (status_eq k.status processing ≡ true)
    × (k.worker_id ≡ worker)
    × Updated change k s r

module _ (worker : String) (change : Job → Job) (event : String) (effects : Job → List Effect) where
  -- What both handlers do with the job that was looked up.
  report_on : Job → M Response
  report_on k =
      try (statement (transition (is_held_by k.id worker k.started_at) change))
      >>= answer_report event (effects k) k.id

  module _ (s : Store) (keyed : Keyed s.jobs) (id : String) (k : Job)
      (found : find_job id s.jobs ≡ some k) where
    same_id : k.id ≡ id
    same_id = find_job_id id s.jobs found

    at_id : find_job k.id s.jobs ≡ some k
    at_id = subst (λ x. find_job x s.jobs ≡ some k) (sym same_id) found

    held_own : (j : Job) → is_held_by k.id worker k.started_at j ≡ true → has_id k.id j ≡ true
    held_own j e = ground arith

    report_verdict :
        Reported change id worker s (report_on k (called s)) ⊎ TurnedDown s (report_on k (called s))
    unfolding report_on
    report_verdict =
        elim (update-Verdict (is_held_by k.id worker k.started_at) change _
          (answer_report-Answers event (effects k) k.id) s keyed k at_id held_own) [
            | inl h ↦
                inl (k, found, ground arith, str_eq-true k.worker_id worker (ground arith), h.1)
            | inr h ↦ inr h
          ]

    holds :
        status_eq k.status processing ≡ true
        → k.worker_id ≡ worker
        → is_held_by k.id worker k.started_at k ≡ true
    holds running mine =
        ground (arith, eq_refl k.id, eq_iff k.worker_id worker, matches_start_self k.started_at)

    report_succeeds :
        s.faults ≡ []
        → status_eq k.status processing ≡ true
        → k.worker_id ≡ worker
        → Updated change k s (report_on k (called s))
    unfolding report_on
    report_succeeds quiet running mine =
        update_succeeds (is_held_by k.id worker k.started_at) change _
          (answer_report-Answers event (effects k) k.id) s keyed k at_id held_own quiet
          (holds running mine)

-- From a keyed table a report of completion is answered 200 only if the job that it names was in processing and held by
-- the worker that sent it; then its row is completed and no other row has changed. On any other
-- answer the whole table is as it was. That holds for every request and whatever calls of the database fail.
pub job_complete_verdict :
    (method : Method) (req : CompleteRequest) (now : ℕ) (s : Store)
    → Keyed s.jobs
    → Reported
        (completed_row req.worker_id now req.output_size "")
        req.job_id
        req.worker_id
        s
        (job_complete method (some req) now s)
      ⊎ TurnedDown s (job_complete method (some req) now s)
unfolding job_complete complete_decoded complete_fetched mark_job_completed exec_job_transition
    report_on
job_complete_verdict method req now s keyed =
    only-cases P s post method _ (inr (turned_down 405 s (λ e. omega arith))) λ _.
      unless-cases P s (str_eq req.job_id "") 400 _ (inr (turned_down 400 s (λ e. omega arith))) (
        unless-cases P s (str_eq req.worker_id "") 400 _
          (inr (turned_down 400 s (λ e. omega arith)))
          (fetch_then req.job_id (complete_fetched req now) s P
            (inr (turned_down 404 (called s) (λ e. omega arith)))
            (served (find_job req.job_id s.jobs) refl)))
  where
    change : Job → Job
    change = completed_row req.worker_id now req.output_size ""

    P : Result Response × Store → Type 0
    P r = Reported change req.job_id req.worker_id s r ⊎ TurnedDown s r

    served :
        (o : Option Job)
        → find_job req.job_id s.jobs ≡ o
        → P (complete_fetched req now (looked_up o) (called s))
    served none e = inr (turned_down 404 (called s) (λ e. omega arith))
    served (some k) e =
        report_verdict req.worker_id change "completed"
          (λ j. completion_effects (elapsed now j.started_at)) s keyed req.job_id k e

-- From a keyed table and with a database that serves every call, a worker that holds a running job and
-- reports it complete, with both identifiers given, is answered 200, and exactly its row is completed.
pub job_complete_succeeds :
    (req : CompleteRequest) (now : ℕ) (s : Store) (k : Job)
    → Keyed s.jobs
    → s.faults ≡ []
    → str_eq req.job_id "" ≡ false
    → str_eq req.worker_id "" ≡ false
    → find_job req.job_id s.jobs ≡ some k
    → status_eq k.status processing ≡ true
    → k.worker_id ≡ req.worker_id
    → Updated
        (completed_row req.worker_id now req.output_size "")
        k
        s
        (job_complete post (some req) now s)
unfolding job_complete complete_decoded complete_fetched mark_job_completed exec_job_transition
    report_on
job_complete_succeeds req now s k keyed quiet named signed found running mine =
    let change = completed_row req.worker_id now req.output_size "" in
    rw (named, signed)
      (fetch_quiet req.job_id (complete_fetched req now) s (Updated change k s) quiet (
        subst (λ o. Updated change k s (complete_fetched req now (looked_up o) (called s)))
          (sym found)
          (report_succeeds req.worker_id change "completed"
            (λ j. completion_effects (elapsed now j.started_at)) s keyed req.job_id k found quiet
            running mine)))

-- From a keyed table a report of failure is answered 200 only if the job was in processing and held by the worker that
-- sent it; then its row is failed and no other row has changed. On any other answer the whole table is
-- as it was. That holds for every request and whatever calls of the database fail.
pub job_failed_verdict :
    (method : Method) (req : FailRequest) (now : ℕ) (s : Store)
    → Keyed s.jobs
    → Reported
        (failed_row req.worker_id req.error_message now)
        req.job_id
        req.worker_id
        s
        (job_failed method (some req) now s)
      ⊎ TurnedDown s (job_failed method (some req) now s)
unfolding job_failed fail_decoded fail_fetched mark_job_failed exec_job_transition report_on
job_failed_verdict method req now s keyed =
    only-cases P s post method _ (inr (turned_down 405 s (λ e. omega arith))) λ _.
      unless-cases P s (str_eq req.job_id "") 400 _ (inr (turned_down 400 s (λ e. omega arith))) (
        unless-cases P s (str_eq req.worker_id "") 400 _
          (inr (turned_down 400 s (λ e. omega arith)))
          (fetch_then req.job_id (fail_fetched req now) s P
            (inr (turned_down 404 (called s) (λ e. omega arith)))
            (served (find_job req.job_id s.jobs) refl)))
  where
    change : Job → Job
    change = failed_row req.worker_id req.error_message now

    P : Result Response × Store → Type 0
    P r = Reported change req.job_id req.worker_id s r ⊎ TurnedDown s r

    served :
        (o : Option Job)
        → find_job req.job_id s.jobs ≡ o
        → P (fail_fetched req now (looked_up o) (called s))
    served none e = inr (turned_down 404 (called s) (λ e. omega arith))
    served (some k) e =
        report_verdict req.worker_id change "failed"
          (λ j. record_failed (elapsed now j.started_at) ∷ record_finished ∷ []) s keyed req.job_id
          k e
