-- ===== src/Server/Verdicts/Capacity.antt =====
-- How many jobs `GetNextJobs` hands to a worker that is known.
use dark_stream.Common.{
  ℕ, zero, suc, ◌≡◌, ◌≤◌, refl, min, Bool, List, [], ◌∷◌, Option, none, some, String, Bool-cases,
  inl, inr, arith, length, if◌then◌else◌, str_eq, filter, sort_by,
}
use dark_stream.Models.{Job, WorkerHeartbeat, worker_status_paused}
use dark_stream.Metrics.{refresh_queue_depth}
use dark_stream.Tracker.{Store, Result, ok, err, reading}
use dark_stream.Tracker.Claim.{claim_next_pending_jobs}
use dark_stream.Tracker.Claims.{length-claim}
use dark_stream.Tracker.Outcomes.{called}
use dark_stream.Tracker.Rows.{Keyed}
use dark_stream.Tracker.Workers.{get_active_workers, is_active, heard_later}
use dark_stream.Tracker.Fetching.{try_quiet}
use dark_stream.Server.{Method, get, Body, one_job, bare_list, batch, Response, Param, limit_of}
use dark_stream.Server.Assign.{
  find_worker, at_capacity, places_left, answer_claims, slots_of, available_slots, claim_slots,
  assign_jobs, get_next_jobs,
}
use dark_stream.Server.Verdicts.{only-cases, unless-cases}

abbrev jobs_in : Body → ℕ
jobs_in (one_job j) = 1
jobs_in (bare_list js) = length js
jobs_in (batch js) = length js
jobs_in _ = 0

-- How many jobs an answer carries.
abbrev pub handed : Result Response → ℕ
handed (ok r) = jobs_in r.body
handed (err _) = 0

-- What a worker with this heartbeat may be given.
abbrev pub quota : WorkerHeartbeat → ℕ
quota w = if str_eq w.status worker_status_paused then 0 else places_left w.active_jobs

abbrev size : Result (List Job) → ℕ
size (ok js) = length js
size (err _) = 0

answer_claims-handed : (r : Result (List Job)) (t : Store) → handed (answer_claims r t).0 ≡ size r
unfolding answer_claims refresh_queue_depth
answer_claims-handed (err e) t = refl
answer_claims-handed (ok []) t = refl
answer_claims-handed (ok (j ∷ js)) t = refl

claim-size :
    (worker : String) (n now : ℕ) (s : Store)
    → Keyed s.jobs
    → size (claim_next_pending_jobs worker n now s).0 ≤ n
unfolding claim_next_pending_jobs
claim-size worker zero now s keyed = omega arith
claim-size worker (suc n) now s keyed = split (claim_next_pending_jobs worker (suc n) now s).0 refl
  where
    split :
        (r : Result (List Job))
        → (claim_next_pending_jobs worker (suc n) now s).0 ≡ r
        → size r ≤ suc n
    split (err e) h = omega arith
    split (ok js) h = let l = length-claim worker now (suc n) s (omega arith) keyed h in omega arith

module _ (worker : String) (now : ℕ) (s : Store) (w : WorkerHeartbeat) (keyed : Keyed s.jobs) where
  abbrev Within : Result Response × Store → Type 0
  Within r = handed r.0 ≤ quota w

  claim_slots-Within :
      (limit : ℕ) → Within (claim_slots worker now (slots_of limit (some w)) (called s))
  unfolding claim_slots
  claim_slots-Within limit = elim (Bool-cases (str_eq w.status worker_status_paused)) [
    | inl e ↦ rw e (omega arith)
    | inr e ↦ rw e (elim (Bool-cases (at_capacity w.active_jobs)) [
      | inl f ↦ rw f (omega arith)
      | inr f ↦ rw f (
          let n = min (places_left w.active_jobs) limit in
          let r = claim_next_pending_jobs worker n now (called s) in
          let a = answer_claims-handed r.0 r.1 in
          let b = claim-size worker n now (called s) keyed in omega arith)
    ])
  ]

-- From a keyed table and with a database that serves every call, a worker that the query lists as active is handed
-- at once no more jobs than five less the active ones of its heartbeat, and none while it is paused.
pub get_next_jobs_capacity :
    (method : Method) (queue_paused : Bool) (worker : String) (limit : Param) (now : ℕ) (s : Store)
    (w : WorkerHeartbeat)
    → Keyed s.jobs
    → s.faults ≡ []
    → find_worker worker (sort_by heard_later (filter (is_active 120 now) s.workers)) ≡ some w
    → handed (get_next_jobs method queue_paused worker limit now s).0 ≤ quota w
unfolding get_next_jobs assign_jobs get_active_workers
get_next_jobs_capacity method queue_paused worker limit now s w keyed quiet known =
    only-cases (Within worker now s w keyed) s get method _ (omega arith) λ _.
      unless-cases (Within worker now s w keyed) s queue_paused 204 _ (omega arith) (
        unless-cases (Within worker now s w keyed) s (str_eq worker "") 400 _ (omega arith)
          (assigned (limit_of 5 limit)))
  where
    assigned : (o : Option ℕ) → Within worker now s w keyed (assign_jobs worker now o s)
    assigned none = omega arith
    assigned (some l) =
        try_quiet (reading (λ t. sort_by heard_later (filter (is_active 120 now) t.workers)))
          (λ active. claim_slots worker now (available_slots worker (min l 20) active)) s
          (Within worker now s w keyed) quiet
          (rw known (claim_slots-Within worker now s w keyed (min l 20)))
