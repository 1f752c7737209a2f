-- ===== src/Tracker/Claims.antt =====
-- The guarantees of `ClaimNextPendingJobs` to the workers: how many jobs, which ones, and no job twice.
use dark_stream.Common.{
  ℕ, ◌≡◌, ◌<◌, refl, sym, ◌∙◌, ap, subst, inl, inr, true, false, List, [], ◌∷◌, Option, none, some,
  String, arith, Bool-cases, All, min, length, length-take, count, length-map, All-map_of,
}
use mathlib.Core.Bool.{false≢true}
use dark_stream.Models.{Job, processing}
use dark_stream.Tracker.{Store, ok}
use dark_stream.Tracker.Lookup.{comes_before, is_pending, pending_queue}
use dark_stream.Tracker.Claim.{claimed_row, next_batch, claim_next_pending_jobs}
use dark_stream.Tracker.Rows.{find_job, changed, Keyed, IsFound, All-find_job, find_job_id}
use dark_stream.Tracker.Order.{length-pending_queue}
use dark_stream.Tracker.Batch.{in_batch, Claims, claimed, claim_next_pending_jobs-Claims}
use dark_stream.Tracker.Assignment.{
  in_batch_self, IsQueued, next_batch-IsQueued, Split, next_batch-Split,
}

-- A job that a claim returns: it was pending, and its row now says that the worker runs it.
pub record IsAssigned (worker : String) (now : ℕ) (s t : Store) (j : Job) : Type 0 where
  pub running : j.status ≡ processing
  pub holder : j.worker_id ≡ worker
  pub since : j.started_at ≡ some now
  pub stored : find_job j.id t.jobs ≡ some j
  pub queued : (k : Job) × (find_job j.id s.jobs ≡ some k) × (is_pending k ≡ true)

in_batch-claimed :
    (worker : String) (now : ℕ) (js : List Job) (id : String)
    → in_batch (claimed worker now js) id ≡ in_batch js id
in_batch-claimed worker now [] id = refl
in_batch-claimed worker now (j ∷ js) id = rw (in_batch-claimed worker now js id)

module _ (worker : String) (now : ℕ) (batch : List Job) where
  abbrev changed_by : Option Job → Option Job
  changed_by = changed (λ j. in_batch batch j.id) (claimed_row worker now)

  changed_outside :
      (id : String) (o : Option Job)
      → in_batch batch id ≡ false
      → ((k : Job) → o ≡ some k → k.id ≡ id)
      → changed_by o ≡ o
  changed_outside id none m f = refl
  changed_outside id (some k) m f = let e : in_batch batch k.id ≡ false = rw (f k refl) m in rw e

  -- A row that is pending after the claim is not in the batch.
  still_pending :
      (o : Option Job) (k : Job)
      → changed_by o ≡ some k
      → is_pending k ≡ true
      → (o ≡ some k) × (in_batch batch k.id ≡ false)
  still_pending none k e p = cc
  still_pending (some k₀) k e p = elim (Bool-cases (in_batch batch k₀.id)) [
    | inl m ↦
        let same : some (claimed_row worker now k₀) ≡ some k = rw m at e in
        let q : is_pending (claimed_row worker now k₀) ≡ true =
          subst (λ x. is_pending x ≡ true) {x = k} {y = claimed_row worker now k₀} (cc) p in
        cc
    | inr m ↦
        let same : some k₀ ≡ some k = rw m at e in
        (same, subst (λ x. in_batch batch x.id ≡ false) {x = k₀} {y = k} (cc) m)
  ]

module _ (worker : String) (now limit : ℕ) {js : List Job} (s : Store) (positive : 0 < limit)
    (keyed : Keyed s.jobs) (returned : (claim_next_pending_jobs worker limit now s).0 ≡ ok js) where
  result : js ≡ claimed worker now (next_batch limit s.jobs)
  result = (claim_next_pending_jobs-Claims worker now limit s positive returned).0

  claims :
      Claims worker now (next_batch limit s.jobs) s (claim_next_pending_jobs worker limit now s).1
  claims = (claim_next_pending_jobs-Claims worker now limit s positive returned).1

  -- A claim with a positive limit that returns, from a keyed table, returns as many jobs as are
  -- pending, up to the limit and to 100.
  pub length-claim : length js ≡ min (min limit 100) (count is_pending s.jobs)
  length-claim = omega (
    arith,
    ap length result,
    length-map (claimed_row worker now) (next_batch limit s.jobs),
    length-take (min limit 100) (pending_queue s.jobs),
    length-pending_queue s.jobs,
  )

  IsAssigned-row :
      (j : Job)
      → IsQueued s.jobs j
      → in_batch (next_batch limit s.jobs) j.id ≡ true
      → IsAssigned worker now s
          (claim_next_pending_jobs worker limit now s).1
          (claimed_row worker now j)
  IsAssigned-row j q m = record {
    running = refl;
    holder = refl;
    since = refl;
    stored = claims.rows j.id ∙ rw (q.0, m);
    queued = (j, q.0, q.1);
  }

  -- A claim with a positive limit that returns, from a keyed table: each job that it returns was
  -- pending, and now runs on the worker, from the given time on.
  pub claim_assigns :
      All (IsAssigned worker now s (claim_next_pending_jobs worker limit now s).1) js
  claim_assigns = subst (All Assigned) (sym result) (
      All-map_of (claimed_row worker now) Assigned batch
        (pairs batch (next_batch-IsQueued limit s.jobs keyed) (in_batch_self batch)))
    where
      batch : List Job
      batch = next_batch limit s.jobs

      Assigned : Job → Type 0
      Assigned = IsAssigned worker now s (claim_next_pending_jobs worker limit now s).1

      pairs :
          (ks : List Job)
          → All (IsQueued s.jobs) ks
          → All (λ k. in_batch (next_batch limit s.jobs) k.id ≡ true) ks
          → All
              (λ k.
                IsAssigned worker now s
                  (claim_next_pending_jobs worker limit now s).1
                  (claimed_row worker now k))
              ks
      pairs [] q m = tt
      pairs (k ∷ ks) q m = (IsAssigned-row k q.0 m.0, pairs ks q.1 m.1)

  -- A claim with a positive limit that returns, from a keyed table, leaves the rows of all other jobs
  -- as they were.
  pub claim_leaves_others :
      (id : String)
      → in_batch js id ≡ false
      → find_job id (claim_next_pending_jobs worker limit now s).1.jobs ≡ find_job id s.jobs
  claim_leaves_others id m =
      claims.rows id
      ∙ changed_outside worker now (next_batch limit s.jobs) id (find_job id s.jobs)
          (rw (← in_batch-claimed worker now (next_batch limit s.jobs) id) (rw (← result) m))
          (λ k. find_job_id id s.jobs)

  -- A claim with a positive limit that returns, from a keyed table: every job that it returns may go
  -- before any row of the table that is pending after it.
  pub claim_most_urgent :
      (k : Job)
      → IsFound (claim_next_pending_jobs worker limit now s).1.jobs k
      → is_pending k ≡ true
      → All (λ j. comes_before j k ≡ true) js
  claim_most_urgent k f p =
      let (was, out) =
        still_pending worker now (next_batch limit s.jobs) (find_job k.id s.jobs) k
          (sym (claims.rows k.id) ∙ f) p in
      behind k out (All-find_job _ k.id s.jobs (next_batch-Split limit s.jobs) was p)
    where
      behind :
          (k : Job)
          → in_batch (next_batch limit s.jobs) k.id ≡ false
          → Split limit s.jobs k
          → All (λ j. comes_before j k ≡ true) js
      behind k out (inl m) = absurd (false≢true (sym out ∙ m))
      behind k out (inr h) =
          subst (All (λ j. comes_before j k ≡ true)) (sym result)
            (All-map_of (claimed_row worker now) _ (next_batch limit s.jobs) h)

  pub claim-Keyed : Keyed (claim_next_pending_jobs worker limit now s).1.jobs
  claim-Keyed = claims.keyed keyed
