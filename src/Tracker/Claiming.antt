-- ===== src/Tracker/Claiming.antt =====
-- `ClaimNextPendingJobs` is atomic.
use dark_stream.Common.{ℕ, ◌≡◌, refl, inl, inr, Bool, List, String, Bool-cases, ◌==◌}
use dark_stream.Models.{Job}
use dark_stream.Tracker.{Store, Result, err, Error, ◌>>=◌, query, writing}
use dark_stream.Tracker.Claim.{control, claim_batch, claim_next_pending_jobs, same, batch_of}
use dark_stream.Tracker.Outcomes.{called, statement_then, transaction_cases}

-- The tables are the same; the driver may have been called in between.
pub record SameTables (s t : Store) : Type 0 where
  pub jobs : t.jobs ≡ s.jobs
  pub workers : t.workers ≡ s.workers
  pub progress : t.progress ≡ s.progress
  pub settings : t.settings ≡ s.settings

abbrev Unharmed : Store → Result (List Job) × Store → Type 0
Unharmed s r = (e : Error) → r.0 ≡ err e → SameTables s r.1

-- Whatever call of the driver fails, a claim that returns an error has changed no table.
pub claim_atomic :
    (worker : String) (limit now : ℕ) (s : Store) (e : Error)
    → (claim_next_pending_jobs worker limit now s).0 ≡ err e
    → SameTables s (claim_next_pending_jobs worker limit now s).1
unfolding claim_next_pending_jobs control
claim_atomic worker limit now s = elim (Bool-cases (limit == 0)) [
  | inl e ↦ rw e (λ x h. cc)
  | inr e ↦ rw e (
      statement_then (writing same) _ s (Unharmed s) (λ _ _. unharmed)
        (statement_then (writing same) _ (called s) (Unharmed s) (λ _ _. unharmed)
          (transaction_cases (query (batch_of limit) >>= claim_batch worker now) (called (called s))
            (Unharmed s) (λ _ t _ _ _. unharmed) (λ js t f x h. cc))))
]
  where
    unharmed : {fs : List Bool} → SameTables s (record s { faults = fs })
    unharmed = record { jobs = refl; workers = refl; progress = refl; settings = refl }
