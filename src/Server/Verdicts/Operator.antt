-- ===== src/Server/Verdicts/Operator.antt =====
-- `RetryJob`, `RequeueJob` and `CancelJob`: what is changed, for whom, and what is answered.
use dark_stream.Common.{
  ℕ, ◌≡◌, refl, sym, subst, Bool, true, false, ◌||◌, List, [], Option, none, some, String, ◌⊎◌, inl,
  inr, arith, eq_refl,
}
use dark_stream.Models.{Job, Status, pending, processing, failed, status_eq, status_eq_iff}
use dark_stream.Metrics.{Effect}
use dark_stream.Tracker.{no_rows, Store, Result, ok, err, Error, driver, M, ◌>>=◌, try, statement}
use dark_stream.Tracker.Jobs.{
  has_id, transition, exec_job_transition, reset_job_to_pending, may_reset, reset_row,
  mark_job_cancelled, may_cancel, cancelled_row,
}
use dark_stream.Tracker.Outcomes.{called}
use dark_stream.Tracker.Rows.{find_job, find_job_id, Keyed}
use dark_stream.Tracker.Fetching.{looked_up, fetch_then, fetch_quiet}
use dark_stream.Tracker.Lookup.{get_job_by_id}
use dark_stream.Server.{
  Method, post, Body, empty, Response, validate_job_id, Credentials, authenticate_request,
  require_auth,
}
use dark_stream.Server.Operator.{
  answer_update, retry_fetched, retry_job, requeue_fetched, requeue_job,
}
use dark_stream.Server.Cancel.{cancel_fetched, cancel_job}
use dark_stream.Server.Verdicts.{
  TurnedDown, Answers, Updated, update-Verdict, update_succeeds, only-cases, when-cases,
  turned_down,
}
use dark_stream.Server.Verdicts.Reports.{matches_start_self}

answer_update-Answers : (b : Body) (effects : List Effect) → Answers (answer_update b effects)
unfolding answer_update
answer_update-Answers b effects = record {
  refused = λ e t. turned_down 500 t (λ e. omega arith);
  conflict = λ t. turned_down 409 t (λ e. omega arith);
  done = λ t. (refl, refl);
}

-- An update that an operator asked for, of a row that had one of the statuses it is for.
abbrev pub Changed :
    (Job → Job) → (Status → Bool) → String → Store → Result Response × Store → Type 0
Changed change allowed id s r =
    (k : Job) × (find_job id s.jobs ≡ some k) × (allowed k.status ≡ true) × Updated change k s r

abbrev pub any_status : Status → Bool
any_status st = true

abbrev pub is_failed : Status → Bool
is_failed st = status_eq st failed

abbrev pub is_open : Status → Bool
is_open st = status_eq st pending || status_eq st processing

module _ (s : Store) (keyed : Keyed s.jobs) (id : String) (k : Job)
    (found : find_job id s.jobs ≡ some k) where
  at_own_id : find_job k.id s.jobs ≡ some k
  at_own_id = subst (λ x. find_job x s.jobs ≡ some k) (sym (find_job_id id s.jobs found)) found

  module _ (test : Job → Bool) (change : Job → Job)
      (own : (j : Job) → test j ≡ true → has_id k.id j ≡ true) (allowed : Status → Bool)
      (right : allowed k.status ≡ true) (b : Body) (effects : List Effect) where
    change_verdict :
        Changed change allowed id s
          ((try (statement (transition test change)) >>= answer_update b effects) (called s))
        ⊎ TurnedDown s
            ((try (statement (transition test change)) >>= answer_update b effects) (called s))
    change_verdict =
        elim (update-Verdict test change _ (answer_update-Answers b effects) s keyed k at_own_id
          own) [ inl h ↦ inl (k, found, right, h.1) | inr h ↦ inr h ]

    change_succeeds :
        s.faults ≡ []
        → test k ≡ true
        → Updated change k s
            ((try (statement (transition test change)) >>= answer_update b effects) (called s))
    change_succeeds =
        update_succeeds test change _ (answer_update-Answers b effects) s keyed k at_own_id own

with_auth : {A B C : Type 0} → A → B ⊎ C → (A × B) ⊎ C
with_auth a (inl b) = inl (a, b)
with_auth a (inr c) = inr c

reset_own :
    (k : Job) (st : Option Status) (j : Job)
    → may_reset k.id st "" k.started_at j ≡ true
    → has_id k.id j ≡ true
reset_own k st j e = ground arith

cancel_own : (k j : Job) → may_cancel k.id k.started_at j ≡ true → has_id k.id j ≡ true
cancel_own k j e = ground arith

-- Looking a job up for a handler that goes on by its row.
module _ (P : Result Response × Store → Type 0) (s : Store) (id : String)
    (f : Result Job → M Response) (refused : (e : Error) → P (f (err e) (called s)))
    (served : (k : Job) → find_job id s.jobs ≡ some k → P (f (ok k) (called s))) where
  fetched-cases : P ((try (get_job_by_id id) >>= f) s)
  fetched-cases = fetch_then id f s P (refused driver) (split (find_job id s.jobs) refl)
    where
      split : (o : Option Job) → find_job id s.jobs ≡ o → P (f (looked_up o) (called s))
      split none e = refused no_rows
      split (some k) e = served k e

-- From a keyed table a retry of one job is answered 200 only if the job was failed; then its row is pending again with one
-- more retry counted, and no other row has changed. On any other answer the whole table is as it was.
pub retry_job_verdict :
    (method : Method) (id : String) (s : Store)
    → Keyed s.jobs
    → Changed (reset_row true) is_failed id s (retry_job method id s)
      ⊎ TurnedDown s (retry_job method id s)
unfolding retry_job retry_fetched reset_job_to_pending exec_job_transition
retry_job_verdict method id s keyed =
    only-cases P s post method _ (inr (turned_down 405 s (λ e. omega arith))) λ _.
      when-cases P s (validate_job_id id) _ 400 (inr (turned_down 400 s (λ e. omega arith))) λ _.
        fetched-cases P s id retry_fetched
          (λ e. inr (turned_down 404 (called s) (λ e. omega arith)))
          λ k found.
            when-cases P (called s) (status_eq k.status failed) _ 400
              (inr (turned_down 400 (called s) (λ e. omega arith)))
              λ is.
                change_verdict s keyed id k found _ (reset_row true) (reset_own k (some failed))
                  is_failed is empty _
  where
    P : Result Response × Store → Type 0
    P r = Changed (reset_row true) is_failed id s r ⊎ TurnedDown s r

-- From a keyed table a requeue is answered 200 only if the request is authenticated and the job is there, whatever its
-- status was; then its row is pending again with the same number of retries, and no other row has changed. On any
-- other answer the whole table is as it was.
pub requeue_job_verdict :
    (method : Method) (api_key : String) (c : Credentials) (id : String) (s : Store)
    → Keyed s.jobs
    → ((authenticate_request api_key c ≡ true)
        × Changed (reset_row false) any_status id s (requeue_job method api_key c id s))
      ⊎ TurnedDown s (requeue_job method api_key c id s)
unfolding requeue_job requeue_fetched reset_job_to_pending exec_job_transition require_auth
requeue_job_verdict method api_key c id s keyed =
    only-cases P s post method _ (inr (turned_down 405 s (λ e. omega arith))) λ _.
      when-cases P s (authenticate_request api_key c) _ 401
        (inr (turned_down 401 s (λ e. omega arith)))
        λ auth.
          when-cases P s (validate_job_id id) _ 400 (inr (turned_down 400 s (λ e. omega arith)))
            λ _.
              fetched-cases P s id requeue_fetched
                (λ e. inr (turned_down 404 (called s) (λ e. omega arith)))
                λ k found. with_auth auth (
                  change_verdict s keyed id k found _ (reset_row false)
                    (reset_own k (some k.status)) any_status refl empty _)
  where
    P : Result Response × Store → Type 0
    P r =
        ((authenticate_request api_key c ≡ true) × Changed (reset_row false) any_status id s r)
        ⊎ TurnedDown s r

-- From a keyed table a cancellation is answered 200 only if the request is authenticated and the job was pending or in
-- processing; then its row is cancelled and no other row has changed. On any other answer the whole table is as it was.
pub cancel_job_verdict :
    (method : Method) (api_key : String) (c : Credentials) (id : String) (now : ℕ) (s : Store)
    → Keyed s.jobs
    → ((authenticate_request api_key c ≡ true)
        × Changed
            (cancelled_row "Job cancelled by user" now)
            is_open
            id
            s
            (cancel_job method api_key c id now s))
      ⊎ TurnedDown s (cancel_job method api_key c id now s)
unfolding cancel_job cancel_fetched mark_job_cancelled exec_job_transition require_auth
cancel_job_verdict method api_key c id now s keyed =
    only-cases P s post method _ (inr (turned_down 405 s (λ e. omega arith))) λ _.
      when-cases P s (authenticate_request api_key c) _ 401
        (inr (turned_down 401 s (λ e. omega arith)))
        λ auth.
          when-cases P s (validate_job_id id) _ 400 (inr (turned_down 400 s (λ e. omega arith)))
            λ _.
              fetched-cases P s id (cancel_fetched now)
                (λ e. inr (turned_down 404 (called s) (λ e. omega arith)))
                λ k found.
                  when-cases P (called s) (is_open k.status) _ 400
                    (inr (turned_down 400 (called s) (λ e. omega arith)))
                    λ is. with_auth auth (
                      change_verdict s keyed id k found _
                        (cancelled_row "Job cancelled by user" now) (cancel_own k) is_open is _ [])
  where
    P : Result Response × Store → Type 0
    P r =
        ((authenticate_request api_key c ≡ true)
          × Changed (cancelled_row "Job cancelled by user" now) is_open id s r)
        ⊎ TurnedDown s r

-- From a keyed table and with a database that serves every call, an authenticated requeue by POST with a
-- valid identifier of any job that is there is answered 200, and exactly its row is reset.
pub requeue_job_succeeds :
    (api_key : String) (c : Credentials) (id : String) (s : Store) (k : Job)
    → Keyed s.jobs
    → s.faults ≡ []
    → authenticate_request api_key c ≡ true
    → validate_job_id id ≡ true
    → find_job id s.jobs ≡ some k
    → Updated (reset_row false) k s (requeue_job post api_key c id s)
unfolding requeue_job requeue_fetched reset_job_to_pending exec_job_transition require_auth
requeue_job_succeeds api_key c id s k keyed quiet auth valid found =
    let own_status : status_eq k.status k.status ≡ true =
      (status_eq_iff k.status k.status).1 refl in
    let test : may_reset k.id (some k.status) "" k.started_at k ≡ true =
      ground (arith, eq_refl k.id, own_status, matches_start_self k.started_at) in
    rw (auth, valid)
      (fetch_quiet id requeue_fetched s (Updated (reset_row false) k s) quiet (
        subst (λ o. Updated (reset_row false) k s (requeue_fetched (looked_up o) (called s)))
          (sym found)
          (change_succeeds s keyed id k found _ (reset_row false) (reset_own k (some k.status))
            any_status refl empty _ quiet test)))
