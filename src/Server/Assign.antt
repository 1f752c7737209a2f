-- ===== src/Server/Assign.antt =====
-- http.go: how jobs are handed to workers, `GetNextJob` and `GetNextJobs`.
use dark_stream.Config.{at_least}
use dark_stream.Common.{
  ℕ, ℤ, pos, negsuc, suc, ◌+◌, ◌-◌, ◌^◌, min, Bool, true, false, List, [], ◌∷◌, Option, none, some,
  String, if◌then◌else◌, leb, str_eq, length,
}
use dark_stream.Models.{Job, WorkerHeartbeat, worker_status_paused}
use dark_stream.Metrics.{record_started, refresh_queue_depth}
use dark_stream.Tracker.{Result, ok, err, M, ◌>>=◌, try}
use dark_stream.Tracker.Claim.{claim_next_pending_job, claim_next_pending_jobs}
use dark_stream.Tracker.Workers.{get_active_workers}
use dark_stream.Server.{
  Method, get, Body, bare_list, batch, one_job, Response, refuse, answer, only, Param, limit_of,
}

abbrev pub max_jobs_per_worker : ℕ
max_jobs_per_worker = 5

-- Whether a worker with that many active jobs has none of its five places left. An int64 that gets too large wraps
-- round to a negative number.
abbrev pub at_capacity : ℤ → Bool
at_capacity (pos n) = leb max_jobs_per_worker n
at_capacity (negsuc n) = leb (2 ^ 63) (max_jobs_per_worker + suc n)

-- The places that are left; a heartbeat may give a negative number of active jobs.
abbrev pub places_left : ℤ → ℕ
places_left (pos n) = max_jobs_per_worker - n
places_left (negsuc n) = max_jobs_per_worker + suc n

-- The first heartbeat of the worker among the active ones.
abbrev pub find_worker : String → List WorkerHeartbeat → Option WorkerHeartbeat
find_worker id [] = none
find_worker id (w ∷ ws) =
    let rest = find_worker id ws in if str_eq w.worker_id id then some w else rest

-- Whether a worker with this heartbeat is given a job: not one that is paused or at capacity.
abbrev pub accepts : Option WorkerHeartbeat → Bool
accepts none = true
accepts (some w) =
    if str_eq w.status worker_status_paused
    then false
    else if at_least max_jobs_per_worker w.active_jobs
    then false
    else true

-- Where the workers cannot be read the job is assigned all the same.
abbrev pub may_assign : String → Result (List WorkerHeartbeat) → Bool
may_assign worker (ok ws) = accepts (find_worker worker ws)
may_assign worker (err _) = true

unfoldable pub answer_claim : Result (Option Job) → M Response
answer_claim (err _) = refuse 204
answer_claim (ok none) = refuse 204
answer_claim (ok (some j)) = do
  depth ← refresh_queue_depth
  answer (one_job j) (record_started 1 ∷ depth)

unfoldable pub assign_job : String → ℕ → M Response
assign_job worker now = do
  active ← try (get_active_workers 120 now)
  if may_assign worker active
      then (do claimed ← try (claim_next_pending_job worker now); answer_claim claimed)
      else refuse 204

unfoldable pub get_next_job : Method → Bool → String → ℕ → M Response
get_next_job method queue_paused worker now = only get method (
    if queue_paused
    then refuse 204
    else if str_eq worker ""
    then refuse 400
    else assign_job worker now)

-- How many jobs the worker may be given, or the list that it is answered with at once.
pub data Slots : Type 0 where
  slots : ℕ → Slots
  no_slots : Body → Slots

abbrev pub slots_of : ℕ → Option WorkerHeartbeat → Slots
slots_of limit none = slots limit
slots_of limit (some w) =
    if str_eq w.status worker_status_paused
    then no_slots (bare_list [])
    else if at_capacity w.active_jobs
    then no_slots (batch [])
    else slots (min (places_left w.active_jobs) limit)

abbrev pub available_slots : String → ℕ → Result (List WorkerHeartbeat) → Slots
available_slots worker limit (ok ws) = slots_of limit (find_worker worker ws)
available_slots worker limit (err _) = slots limit

unfoldable pub answer_claims : Result (List Job) → M Response
answer_claims (err _) = answer (batch []) []
answer_claims (ok []) = answer (batch []) []
answer_claims (ok (j ∷ js)) = do
  depth ← refresh_queue_depth
  answer (batch (j ∷ js)) (record_started (length (j ∷ js)) ∷ depth)

unfoldable pub claim_slots : String → ℕ → Slots → M Response
claim_slots worker now (no_slots b) = answer b []
claim_slots worker now (slots n) = do
  claimed ← try (claim_next_pending_jobs worker n now)
  answer_claims claimed

-- A batch is capped at 20.
unfoldable pub assign_jobs : String → ℕ → Option ℕ → M Response
assign_jobs worker now none = refuse 400
assign_jobs worker now (some limit) = do
  active ← try (get_active_workers 120 now)
  claim_slots worker now (available_slots worker (min limit 20) active)

unfoldable pub get_next_jobs : Method → Bool → String → Param → ℕ → M Response
get_next_jobs method queue_paused worker limit now = only get method (
    if queue_paused
    then refuse 204
    else if str_eq worker ""
    then refuse 400
    else assign_jobs worker now (limit_of 5 limit))
