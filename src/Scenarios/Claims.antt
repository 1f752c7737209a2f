-- ===== src/Scenarios/Claims.antt =====
-- Claims of a worker.
use dark_stream.Tracker.Filling.{claim_fills}
use dark_stream.Common.{
  min, length, count, ◌≡◌, refl, true, false, List, [], ◌∷◌, arith, All, sort_by,
}
use dark_stream.Models.{Job}
use dark_stream.Tracker.{Store, ok, err, driver, statement, in_transaction}
use dark_stream.Tracker.Jobs.{update_where}
use dark_stream.Tracker.Lookup.{is_pending, comes_before, pending_queue}
use dark_stream.Tracker.Claim.{
  claimed_row, claim_next_pending_jobs, claim_batch, claim_rows, claim_row, control,
}
use dark_stream.Tracker.Rows.{IsFound, find_job, Keyed}
use dark_stream.Tracker.Batch.{in_batch}
use dark_stream.Tracker.Claims.{IsAssigned, claim_assigns, claim_most_urgent}
use dark_stream.Tracker.Claiming.{SameTables, claim_atomic}
use dark_stream.Tracker.Exclusion.{claims_disjoint}
use dark_stream.Scenarios.Samples.{low, urgent, two_pending}

abbrev first_claim : List Job
first_claim = claimed_row "w1" 50 urgent ∷ []

abbrev second_claim : List Job
second_claim = claimed_row "w2" 60 low ∷ []

abbrev after_first : Store
after_first = record two_pending { jobs = low ∷ claimed_row "w1" 50 urgent ∷ [] }

two_pending-Keyed : Keyed two_pending.jobs
unfolding find_job
two_pending-Keyed = (refl, (refl, tt))

first_result : (claim_next_pending_jobs "w1" 1 50 two_pending).0 ≡ ok first_claim
unfolding claim_next_pending_jobs control in_transaction statement claim_batch claim_rows claim_row
    pending_queue sort_by update_where
first_result = refl

second_result :
    (claim_next_pending_jobs "w2" 5 60 (claim_next_pending_jobs "w1" 1 50 two_pending).1).0
    ≡ ok second_claim
unfolding claim_next_pending_jobs control in_transaction statement claim_batch claim_rows claim_row
    pending_queue sort_by update_where
second_result = refl

claim_assigns_example :
    All
      (IsAssigned "w1" 50 two_pending (claim_next_pending_jobs "w1" 1 50 two_pending).1)
      first_claim
claim_assigns_example =
    claim_assigns "w1" 50 1 two_pending (omega arith) two_pending-Keyed first_result

low_is_left : IsFound (claim_next_pending_jobs "w1" 1 50 two_pending).1.jobs low
unfolding find_job claim_next_pending_jobs control in_transaction statement claim_batch claim_rows
    claim_row pending_queue sort_by update_where
low_is_left = refl

claim_most_urgent_example : All (λ j. comes_before j low ≡ true) first_claim
claim_most_urgent_example =
    claim_most_urgent "w1" 50 1 two_pending (omega arith) two_pending-Keyed first_result low
      low_is_left refl

claims_disjoint_example : All (λ k. in_batch first_claim k.id ≡ false) second_claim
claims_disjoint_example =
    claims_disjoint "w1" "w2" 50 60 1 5 two_pending (omega arith) (omega arith) two_pending-Keyed
      first_result second_result

-- The third call of the driver, the query in the transaction, fails.
abbrev failing : Store
failing = record two_pending { faults = false ∷ false ∷ true ∷ [] }

failing_result : (claim_next_pending_jobs "w1" 1 50 failing).0 ≡ err driver
unfolding claim_next_pending_jobs control in_transaction statement
failing_result = refl

claim_atomic_example : SameTables failing (claim_next_pending_jobs "w1" 1 50 failing).1
claim_atomic_example = claim_atomic "w1" 1 50 failing driver failing_result

claim_fills_example :
    (js : List Job) × ((claim_next_pending_jobs "w1" 1 50 two_pending).0 ≡ ok js)
    × (length js ≡ min (min 1 100) (count is_pending two_pending.jobs))
claim_fills_example = claim_fills "w1" 50 1 two_pending refl two_pending-Keyed
