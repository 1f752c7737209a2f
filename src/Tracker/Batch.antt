-- ===== src/Tracker/Batch.antt =====
-- What a claim does to the jobs table, on every outcome of the driver.
use dark_stream.Common.{
  subst, ◌<◌, ℕ, ◌≡◌, refl, ◌∙◌, Bool, true, false, ◌||◌, List, [], ◌∷◌, map, Option, none, some,
  String, arith, str_eq, All, ◌==◌, IsSorted, sort_by, sort_by_sorted, take-IsSorted,
}
use dark_stream.Models.{Job}
use dark_stream.Tracker.{
  Store, reading, writing, Result, ok, pure, ◌>>=◌, ◌>>◌, query, in_transaction,
}
use dark_stream.Tracker.Jobs.{has_id}
use dark_stream.Tracker.Lookup.{comes_before}
use dark_stream.Tracker.Claim.{
  claimed_row, set_claimed, same, batch_of, claim_row, claim_rows, control, next_batch, claim_batch,
  claim_next_pending_jobs,
}
use dark_stream.Tracker.Outcomes.{transaction_cases, called, statement_then, bind_cases}
use dark_stream.Tracker.Rows.{Keyed, update_where-Keyed, find_job, changed, find_job-update_where}
use dark_stream.Tracker.Order.{pending_queue-IsSorted}

-- Whether a job of the batch has this identifier.
abbrev pub in_batch : List Job → String → Bool
in_batch [] id = false
in_batch (j ∷ js) id = str_eq id j.id || in_batch js id

-- The rows of the batch are claimed, and no other row is touched.
pub record Claims (worker : String) (now : ℕ) (batch : List Job) (s t : Store) : Type 0 where
  pub rows :
      (id : String)
      → find_job id t.jobs
        ≡ changed (λ j. in_batch batch j.id) (claimed_row worker now) (find_job id s.jobs)
  pub keyed : Keyed s.jobs → Keyed t.jobs
  pub workers : t.workers ≡ s.workers
  pub progress : t.progress ≡ s.progress

module _ (worker : String) (now : ℕ) where
  claimed_twice :
      (j : Job) (js : List Job) (o : Option Job)
      → changed
          (λ k. in_batch js k.id)
          (claimed_row worker now)
          (changed (has_id j.id) (claimed_row worker now) o)
        ≡ changed (λ k. in_batch (j ∷ js) k.id) (claimed_row worker now) o
  claimed_twice j js none = refl
  claimed_twice j js (some k) = ground arith

  changed_none : (o : Option Job) → o ≡ changed (λ j. false) (claimed_row worker now) o
  changed_none none = refl
  changed_none (some j) = refl

  pub claim_rows-Claims :
      (js : List Job) (s : Store)
      → (claim_rows worker now js s).0 ≡ ok tt
      → Claims worker now js s (claim_rows worker now js s).1
  unfolding claim_rows claim_row
  claim_rows-Claims [] s = λ h. record {
    rows = λ id. changed_none (find_job id s.jobs);
    keyed = λ k. k;
    workers = refl;
    progress = refl;
  }
  claim_rows-Claims (j ∷ js) s =
      statement_then (writing (set_claimed worker now j)) (λ _. claim_rows worker now js) s
        (λ r. r.0 ≡ ok tt → Claims worker now (j ∷ js) s r.1) (λ h. cc)
        (λ h. claims_cons (claim_rows-Claims js _ h))
    where
      t : Store
      t = set_claimed worker now j (called s)

      claims_cons : {u : Store} → Claims worker now js t u → Claims worker now (j ∷ js) s u
      claims_cons c = record {
        rows = λ id.
            c.rows id
            ∙ rw
                (find_job-update_where (has_id j.id) (claimed_row worker now) (λ _. refl) id s.jobs)
                (claimed_twice j js (find_job id s.jobs));
        keyed = λ k.
            c.keyed
              (update_where-Keyed (has_id j.id) (claimed_row worker now) (λ _. refl) s.jobs k);
        workers = c.workers;
        progress = c.progress;
      }

  -- The second sort of a claim finds its jobs in order.
  map_claimed-IsSorted :
      (js : List Job)
      → IsSorted comes_before js
      → IsSorted comes_before (map (claimed_row worker now) js)
  map_claimed-IsSorted [] h = tt
  map_claimed-IsSorted (j ∷ js) h = (front js h.0, map_claimed-IsSorted js h.1)
    where
      front :
          (ks : List Job)
          → All (λ k. comes_before j k ≡ true) ks
          → All
              (λ k. comes_before (claimed_row worker now j) k ≡ true)
              (map (claimed_row worker now) ks)
      front [] f = tt
      front (k ∷ ks) f = (f.0, front ks f.1)

  abbrev pub claimed : List Job → List Job
  claimed = map (claimed_row worker now)

  pub claim_batch-Claims :
      (batch js : List Job) (s : Store)
      → IsSorted comes_before batch
      → (claim_batch worker now batch s).0 ≡ ok js
      → (js ≡ claimed batch) × Claims worker now batch s (claim_batch worker now batch s).1
  unfolding claim_batch control
  claim_batch-Claims [] js s sorted =
      statement_then (writing same) (λ _. pure []) s
        (λ r. r.0 ≡ ok js → (js ≡ []) × Claims worker now [] s r.1) (λ h. cc)
        (λ h. (
          cc,
          record {
            rows = λ id. changed_none (find_job id s.jobs);
            keyed = λ k. k;
            workers = refl;
            progress = refl;
          },
        ))
  claim_batch-Claims (j ∷ rest) js s sorted =
      bind_cases (claim_rows worker now (j ∷ rest)) (λ _. control >> pure result) s
        (λ r. r.0 ≡ ok js → (js ≡ claimed (j ∷ rest)) × Claims worker now (j ∷ rest) s r.1)
        (λ e t f h. cc)
        (λ _ t done.
          statement_then (writing same) (λ _. pure result) t
            (λ r. r.0 ≡ ok js → (js ≡ claimed (j ∷ rest)) × Claims worker now (j ∷ rest) s r.1)
            (λ h. cc)
            (λ h. (
              cc (h, sort_by_sorted comes_before _ (map_claimed-IsSorted (j ∷ rest) sorted)),
              same_rows (
                  subst (λ r. r.0 ≡ ok tt → Claims worker now (j ∷ rest) s r.1) done
                    (claim_rows-Claims (j ∷ rest) s) refl),
            )))
    where
      result : List Job
      result = sort_by comes_before (claimed (j ∷ rest))

      same_rows :
          {t : Store} → Claims worker now (j ∷ rest) s t → Claims worker now (j ∷ rest) s (called t)
      same_rows c = record {
        rows = c.rows;
        keyed = c.keyed;
        workers = c.workers;
        progress = c.progress;
      }

  -- Refused calls of the driver in between do not matter to what a claim does.
  Claims-called :
      {batch : List Job} {s t : Store}
      → Claims worker now batch (called s) t
      → Claims worker now batch s t
  Claims-called c = record {
    rows = c.rows;
    keyed = c.keyed;
    workers = c.workers;
    progress = c.progress;
  }

  -- What a claim that returns `js` has done.
  abbrev Done : ℕ → List Job → Store → Result (List Job) × Store → Type 0
  Done limit js s r =
      r.0 ≡ ok js
      → (js ≡ claimed (next_batch limit s.jobs)) × Claims worker now (next_batch limit s.jobs) s r.1

  Done-called :
      (limit : ℕ) (js : List Job) (s : Store) {r : Result (List Job) × Store}
      → Done limit js (called s) r
      → Done limit js s r
  Done-called limit js s d h = ((d h).0, Claims-called (d h).1)

  claim_read-Done :
      (limit : ℕ) (js : List Job) (s : Store)
      → Done limit js s ((query (batch_of limit) >>= claim_batch worker now) s)
  claim_read-Done limit js s =
      statement_then (reading (batch_of limit)) (claim_batch worker now) s (Done limit js s)
        (λ h. cc)
        (Done-called limit js s {r = _} (
          claim_batch-Claims (next_batch limit s.jobs) js (called s)
            (take-IsSorted comes_before _ _ (pending_queue-IsSorted s.jobs))))

  claim_transaction-Done :
      (limit : ℕ) (js : List Job) (s : Store)
      → Done limit js s (in_transaction (query (batch_of limit) >>= claim_batch worker now) s)
  claim_transaction-Done limit js s =
      transaction_cases (query (batch_of limit) >>= claim_batch worker now) s (Done limit js s)
        (λ e t f h. cc) (λ a t e. subst (Done limit js s) e (claim_read-Done limit js s))

  pub claim_next_pending_jobs-Claims :
      (limit : ℕ) {js : List Job} (s : Store)
      → 0 < limit
      → (claim_next_pending_jobs worker limit now s).0 ≡ ok js
      → (js ≡ claimed (next_batch limit s.jobs))
        × Claims worker now
            (next_batch limit s.jobs)
            s
            (claim_next_pending_jobs worker limit now s).1
  unfolding claim_next_pending_jobs control
  claim_next_pending_jobs-Claims limit {js} s pos =
      let e : (limit == 0) ≡ false = ground arith in
      rw e (
        statement_then (writing same) _ s (Done limit js s) (λ h. cc)
          (Done-called limit js s (
            statement_then (writing same) _ (called s) (Done limit js (called s)) (λ h. cc)
              (Done-called limit js (called s)
                (claim_transaction-Done limit js (called (called s)))))))
