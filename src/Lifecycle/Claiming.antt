-- ===== src/Lifecycle/Claiming.antt =====
-- A claim keeps the invariant and moves each job of its batch from the queue to the worker.
use dark_stream.Common.{
  zero, suc, subst, ℕ, ◌≡◌, refl, sym, ◌∙◌, true, List, [], Option, none, some, String, arith,
  Bool-cases, inl, inr,
}
use dark_stream.Models.{Job, Status, pending, status_eq}
use dark_stream.Tracker.{Store, Result, ok, err, pure}
use dark_stream.Tracker.Lookup.{is_pending}
use dark_stream.Tracker.Claim.{
  first_claimed, claimed_row, next_batch, claim_next_pending_jobs, claim_next_pending_job,
}
use dark_stream.Tracker.Rows.{find_job_id, find_job, changed, All-of_find_job, All-find_job}
use dark_stream.Tracker.Batch.{in_batch, Claims, claim_next_pending_jobs-Claims}
use dark_stream.Tracker.Assignment.{next_batch-IsQueued, in_batch_pending}
use dark_stream.Tracker.Claiming.{claim_atomic}
use dark_stream.Lifecycle.{
  Powers, phase, phase_of, running, Edge, Reach, here, claim, IsConsistent, Inv,
}
use dark_stream.Lifecycle.Lawful.{Moves, Lawful, Moves-same, pure-Lawful, >>=-Lawful}
use dark_stream.Lifecycle.Statements.{one}

claimed_row-IsConsistent :
    (worker : String) (now : ℕ) (j : Job)
    → is_pending j ≡ true
    → IsConsistent j
    → IsConsistent (claimed_row worker now j)
claimed_row-IsConsistent worker now j p v = ground arith

claim_from :
    {powers : Powers}
    → powers.claims ≡ true
    → (worker w : String) (now : ℕ) (t : Option ℕ) (st : Status) → status_eq st pending ≡ true
    → Reach (Edge powers) (phase_of st w t) (running worker (some now))
claim_from may worker w now t pending e = one (claim worker now may)
claim_from may worker w now t _ e = cc

module _ (worker : String) (now limit : ℕ) (s t : Store) (v : Inv s)
    (c : Claims worker now (next_batch limit s.jobs) s t) where
  batch_pending :
      (id : String) {k : Job}
      → in_batch (next_batch limit s.jobs) id ≡ true
      → find_job id s.jobs ≡ some k
      → is_pending k ≡ true
  batch_pending id m e =
      in_batch_pending s.jobs (next_batch limit s.jobs) id
        (next_batch-IsQueued limit s.jobs v.keyed) m e

  claimed_Reach :
      {powers : Powers}
      → powers.claims ≡ true
      → (id : String) (o : Option Job) → find_job id s.jobs ≡ o
      → Reach (Edge powers) (phase o) (
          phase (changed (λ j. in_batch (next_batch limit s.jobs) j.id) (claimed_row worker now) o))
  claimed_Reach may id none e = here
  claimed_Reach may id (some k) e = elim (Bool-cases (in_batch (next_batch limit s.jobs) k.id)) [
    | inr m ↦ rw m here
    | inl m ↦ rw m (
        claim_from may worker k.worker_id now k.started_at k.status
          (batch_pending id (rw (← find_job_id id s.jobs e) m) e))
  ]

  claimed_IsConsistent :
      (o : Option Job) (j : Job)
      → find_job j.id s.jobs ≡ o
      → changed (λ j. in_batch (next_batch limit s.jobs) j.id) (claimed_row worker now) o ≡ some j
      → IsConsistent j
  claimed_IsConsistent none j e f = cc
  claimed_IsConsistent (some k) j e f =
      elim (Bool-cases (in_batch (next_batch limit s.jobs) k.id)) [
        | inr m ↦
            let same : some k ≡ some j = rw m at f in
            subst IsConsistent {x = k} {y = j} (cc)
              (All-find_job IsConsistent j.id s.jobs v.consistent e)
        | inl m ↦
            let same : some (claimed_row worker now k) ≡ some j = rw m at f in
            subst IsConsistent {x = claimed_row worker now k} {y = j} (cc) (
              claimed_row-IsConsistent worker now k
                (batch_pending j.id (rw (← find_job_id j.id s.jobs e) m) e)
                (All-find_job IsConsistent j.id s.jobs v.consistent e))
      ]

  pub Claims-Moves : {powers : Powers} → powers.claims ≡ true → Moves (Edge powers) s t
  Claims-Moves may = record {
    inv = record {
      keyed = c.keyed v.keyed;
      consistent =
          All-of_find_job IsConsistent t.jobs (c.keyed v.keyed)
            (λ j f. claimed_IsConsistent (find_job j.id s.jobs) j refl (sym (c.rows j.id) ∙ f));
    };
    reach = λ id. rw (c.rows id) (claimed_Reach may id (find_job id s.jobs) refl);
  }

claim_zero : (worker : String) (now : ℕ) → claim_next_pending_jobs worker 0 now ≡ pure []
unfolding claim_next_pending_jobs
claim_zero worker now = refl

pub claim_next_pending_jobs-Lawful :
    {powers : Powers}
    → powers.claims ≡ true
    → (worker : String) (limit now : ℕ)
    → Lawful (Edge powers) (claim_next_pending_jobs worker limit now)
claim_next_pending_jobs-Lawful may worker zero now =
    rw (claim_zero worker now) (pure-Lawful (Edge _) [])
claim_next_pending_jobs-Lawful {powers} may worker (suc n) now = record {
  apply = λ s v. split s v (claim_next_pending_jobs worker (suc n) now s).0 refl;
}
  where
    split :
        (s : Store)
        → Inv s
        → (r : Result (List Job)) → (claim_next_pending_jobs worker (suc n) now s).0 ≡ r
        → Moves (Edge powers) s (claim_next_pending_jobs worker (suc n) now s).1
    split s v (err x) e = Moves-same (Edge _) s _ v (claim_atomic worker (suc n) now s x e).jobs
    split s v (ok js) e =
        Claims-Moves worker now (suc n) s _ v
          (claim_next_pending_jobs-Claims worker now (suc n) s (omega arith) e).1 may

pub claim_next_pending_job-Lawful :
    {powers : Powers}
    → powers.claims ≡ true
    → (worker : String) (now : ℕ) → Lawful (Edge powers) (claim_next_pending_job worker now)
unfolding claim_next_pending_job
claim_next_pending_job-Lawful may worker now =
    >>=-Lawful (Edge _) _ (λ jobs. pure-Lawful (Edge _) (first_claimed jobs))
      (claim_next_pending_jobs worker 1 now) (claim_next_pending_jobs-Lawful may worker 1 now)
