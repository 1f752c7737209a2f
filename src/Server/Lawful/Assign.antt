-- ===== src/Server/Lawful/Assign.antt =====
-- Handing out jobs moves them from the queue to a worker.
use dark_stream.Common.{
  ◌≡◌, refl, true, false, min, ℕ, Bool, String, List, [], ◌∷◌, Option, none, some, str_eq,
}
use dark_stream.Models.{Job}
use dark_stream.Tracker.{Result, ok, err}
use dark_stream.Tracker.Claim.{claim_next_pending_job, claim_next_pending_jobs}
use dark_stream.Tracker.Workers.{get_active_workers}
use dark_stream.Tracker.Respects.{query-Respects, try_bind-Respects}
use dark_stream.Lifecycle.{Powers, Edge}
use dark_stream.Lifecycle.Lawful.{edges, Lawful}
use dark_stream.Lifecycle.Claiming.{claim_next_pending_job-Lawful, claim_next_pending_jobs-Lawful}
use dark_stream.Server.{Method, get, batch, one_job, Param, limit_of}
use dark_stream.Server.Assign.{
  available_slots, answer_claim, assign_job, get_next_job, Slots, slots, no_slots, answer_claims,
  claim_slots, assign_jobs, get_next_jobs, may_assign,
}
use dark_stream.Server.Lawful.{
  refuse-Respects, answer-Respects, only-Respects, when-Respects, unless-Respects,
  with_depth-Respects,
}

answer_claim-Lawful :
    {powers : Powers} → (r : Result (Option Job)) → Lawful (Edge powers) (answer_claim r)
unfolding answer_claim
answer_claim-Lawful (err e) = refuse-Respects edges 204
answer_claim-Lawful (ok none) = refuse-Respects edges 204
answer_claim-Lawful (ok (some j)) =
    with_depth-Respects edges _ (λ depth. answer-Respects edges (one_job j) _)

assign_job-Lawful :
    {powers : Powers}
    → powers.claims ≡ true
    → (worker : String) (now : ℕ) → Lawful (Edge powers) (assign_job worker now)
unfolding assign_job get_active_workers
assign_job-Lawful may worker now =
    try_bind-Respects edges (get_active_workers 120 now) _ (query-Respects edges _) (λ active.
      when-Respects edges (may_assign worker active) _ 204 (
        try_bind-Respects edges (claim_next_pending_job worker now) answer_claim
          (claim_next_pending_job-Lawful may worker now) answer_claim-Lawful))

-- While the queue is paused nothing is handed out.
pub get_next_job-Lawful :
    {powers : Powers}
    → (method : Method) (queue_paused : Bool) → (queue_paused ≡ false → powers.claims ≡ true)
    → (worker : String) (now : ℕ)
    → Lawful (Edge powers) (get_next_job method queue_paused worker now)
unfolding get_next_job
get_next_job-Lawful method true may worker now =
    only-Respects edges get method _ (refuse-Respects edges 204)
get_next_job-Lawful method false may worker now =
    only-Respects edges get method _
      (unless-Respects edges (str_eq worker "") 400 _ (assign_job-Lawful (may refl) worker now))

answer_claims-Lawful :
    {powers : Powers} → (r : Result (List Job)) → Lawful (Edge powers) (answer_claims r)
unfolding answer_claims
answer_claims-Lawful (err e) = answer-Respects edges (batch []) []
answer_claims-Lawful (ok []) = answer-Respects edges (batch []) []
answer_claims-Lawful (ok (j ∷ js)) =
    with_depth-Respects edges _ (λ depth. answer-Respects edges (batch (j ∷ js)) _)

claim_slots-Lawful :
    {powers : Powers}
    → powers.claims ≡ true
    → (worker : String) (now : ℕ) (n : Slots) → Lawful (Edge powers) (claim_slots worker now n)
unfolding claim_slots
claim_slots-Lawful may worker now (no_slots b) = answer-Respects edges b []
claim_slots-Lawful may worker now (slots n) =
    try_bind-Respects edges (claim_next_pending_jobs worker n now) answer_claims
      (claim_next_pending_jobs-Lawful may worker n now) answer_claims-Lawful

assign_jobs-Lawful :
    {powers : Powers}
    → powers.claims ≡ true
    → (worker : String) (now : ℕ) (limit : Option ℕ)
    → Lawful (Edge powers) (assign_jobs worker now limit)
unfolding assign_jobs get_active_workers
assign_jobs-Lawful may worker now none = refuse-Respects edges 400
assign_jobs-Lawful may worker now (some limit) =
    try_bind-Respects edges (get_active_workers 120 now) _ (query-Respects edges _)
      (λ active. claim_slots-Lawful may worker now (available_slots worker (min limit 20) active))

pub get_next_jobs-Lawful :
    {powers : Powers}
    → (method : Method) (queue_paused : Bool) → (queue_paused ≡ false → powers.claims ≡ true)
    → (worker : String) (limit : Param) (now : ℕ)
    → Lawful (Edge powers) (get_next_jobs method queue_paused worker limit now)
unfolding get_next_jobs
get_next_jobs-Lawful method true may worker limit now =
    only-Respects edges get method _ (refuse-Respects edges 204)
get_next_jobs-Lawful method false may worker limit now = only-Respects edges get method _ (
    unless-Respects edges (str_eq worker "") 400 _
      (assign_jobs-Lawful (may refl) worker now (limit_of 5 limit)))
