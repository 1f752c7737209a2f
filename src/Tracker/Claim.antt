-- ===== src/Tracker/Claim.antt =====
-- tracker.go: `ClaimNextPendingJobs`, the transaction that hands pending jobs to a worker.
use dark_stream.Common.{
  ℕ, min, List, [], ◌∷◌, map, Option, none, some, String, if◌then◌else◌, ◌==◌, take, sort_by,
}
use dark_stream.Models.{processing, Job}
use dark_stream.Tracker.{Store, M, pure, ◌>>=◌, ◌>>◌, query, exec, in_transaction}
use dark_stream.Tracker.Jobs.{has_id, update_where}
use dark_stream.Tracker.Lookup.{comes_before, pending_queue}

-- `SET status = 'processing', worker_id = ?, started_at = ?`, on the row and on the copy returned.
abbrev pub claimed_row : String → ℕ → Job → Job
claimed_row worker now j = record j {
  status = processing;
  worker_id = worker;
  started_at = some now;
}

abbrev pub set_claimed : String → ℕ → Job → Store → Store
set_claimed worker now j s = record s {
  jobs = update_where (has_id j.id) (claimed_row worker now) s.jobs;
}

-- `UPDATE jobs … WHERE id = ?`.
unfoldable pub claim_row : String → ℕ → Job → M (Unit {0})
claim_row worker now j = exec (set_claimed worker now j)

unfoldable pub claim_rows : String → ℕ → List Job → M (Unit {0})
claim_rows worker now [] = pure tt
claim_rows worker now (j ∷ js) = claim_row worker now j >> claim_rows worker now js

abbrev pub same : Store → Store
same s = s

-- A call that takes a connection, begins or commits, and leaves the tables alone.
unfoldable pub control : M (Unit {0})
control = exec same

-- `LIMIT ?`, of 100 at most.
abbrev pub next_batch : ℕ → List Job → List Job
next_batch limit jobs = take (min limit 100) (pending_queue jobs)

abbrev pub batch_of : ℕ → Store → List Job
batch_of limit s = next_batch limit s.jobs

-- The jobs that were read are claimed, committed, and put in order once more.
unfoldable pub claim_batch : String → ℕ → List Job → M (List Job)
claim_batch worker now [] = do control; pure []
claim_batch worker now (j ∷ js) = do
  claim_rows worker now (j ∷ js)
  control
  pure (sort_by comes_before (map (claimed_row worker now) (j ∷ js)))

unfoldable pub claim_next_pending_jobs : String → ℕ → ℕ → M (List Job)
claim_next_pending_jobs worker limit now = if limit == 0 then pure [] else do
  control
  control
  in_transaction do rows ← query (batch_of limit); claim_batch worker now rows

-- The job, if there was one to claim.
abbrev pub first_claimed : List Job → Option Job
first_claimed [] = none
first_claimed (j ∷ _) = some j

unfoldable pub claim_next_pending_job : String → ℕ → M (Option Job)
claim_next_pending_job worker now = do
  jobs ← claim_next_pending_jobs worker 1 now
  pure (first_claimed jobs)
