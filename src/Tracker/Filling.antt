-- ===== src/Tracker/Filling.antt =====
-- `ClaimNextPendingJobs` with a driver that serves every call.
use dark_stream.Tracker.Batch.{claimed}
use dark_stream.Tracker.Outcomes.{called, quiet_then}
use dark_stream.Tracker.Lookup.{comes_before, is_pending}
use dark_stream.Tracker.Rows.{Keyed}
use dark_stream.Models.{Job}
use dark_stream.Tracker.{
  reading, fails, pure, writing, later, statement, settle, in_transaction, ok, Store, Result, err,
}
use dark_stream.Tracker.Claim.{
  next_batch, batch_of, same, set_claimed, claim_row, control, claim_next_pending_jobs, claim_rows,
  claim_batch,
}
use dark_stream.Common.{
  ◌≡◌, ◌∷◌, ℕ, zero, suc, sort_by, refl, min, length, inr, inl, false, count, arith, [], String,
  List, Bool-cases, ◌==◌,
}
use dark_stream.Tracker.Claims.{length-claim}

abbrev Returns : Result (List Job) × Store → Type 0
Returns r = (js : List Job) × (r.0 ≡ ok js)

Returns-settle : (s : Store) (r : Result (List Job) × Store) → Returns r → Returns (settle s r)
Returns-settle s (ok a, t) h = h
Returns-settle s (err e, t) h = (h.0, cc (h.1))

module _ (worker : String) (now : ℕ) where
  claim_rows_served :
      (js : List Job) (s : Store)
      → s.faults ≡ []
      → (t : Store) × (claim_rows worker now js s ≡ (ok tt, t)) × (t.faults ≡ [])
  unfolding claim_rows claim_row statement
  claim_rows_served [] s q = (s, refl, q)
  claim_rows_served (j ∷ js) s q =
      let quiet : later s.faults ≡ [] = rw q in
      let rest = claim_rows_served js (set_claimed worker now j (called s)) quiet in
      let served : fails s.faults ≡ false = rw q in (rest.0, rw served rest.1, rest.2)

  claim_batch_served :
      (batch : List Job) (s : Store) → s.faults ≡ [] → Returns (claim_batch worker now batch s)
  unfolding claim_batch control
  claim_batch_served [] s q = quiet_then (writing same) (λ _. pure []) s Returns q ([], refl)
  claim_batch_served (j ∷ js) s q =
      let rows = claim_rows_served (j ∷ js) s q in
      let result = sort_by comes_before (claimed worker now (j ∷ js)) in
      rw rows.1 (quiet_then (writing same) (λ _. pure result) rows.0 Returns rows.2 (result, refl))

  claim_served :
      (limit : ℕ) (s : Store) → s.faults ≡ [] → Returns (claim_next_pending_jobs worker limit now s)
  unfolding claim_next_pending_jobs control in_transaction
  claim_served limit s q = elim (Bool-cases (limit == 0)) [
    | inl e ↦ ([], rw e)
    | inr e ↦ rw e (
        quiet_then (writing same) _ s Returns q (
          quiet_then (writing same) _ (called s) Returns (rw q) (
            Returns-settle (called (called s)) _ (
              quiet_then (reading (batch_of limit)) (claim_batch worker now) (called (called s))
                Returns (rw q)
                (claim_batch_served (next_batch limit s.jobs) (called (called (called s)))
                  (rw q))))))
  ]

  nothing_claimed : (s : Store) → (claim_next_pending_jobs worker 0 now s).0 ≡ ok []
  unfolding claim_next_pending_jobs
  nothing_claimed s = refl

  -- With a driver that serves every call a claim from a keyed table succeeds, and returns as many jobs as are pending, up
  -- to its limit and to 100.
  pub claim_fills :
      (limit : ℕ) (s : Store)
      → s.faults ≡ []
      → Keyed s.jobs
      → (js : List Job) × ((claim_next_pending_jobs worker limit now s).0 ≡ ok js)
        × (length js ≡ min (min limit 100) (count is_pending s.jobs))
  claim_fills zero s quiet keyed = ([], nothing_claimed s, omega arith)
  claim_fills (suc n) s quiet keyed =
      let returned = claim_served (suc n) s quiet in
      (returned.0, returned.1, length-claim worker now (suc n) s (omega arith) keyed returned.1)
