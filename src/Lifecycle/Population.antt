-- ===== src/Lifecycle/Population.antt =====
-- The statements that add rows to the jobs table and delete them keep the invariant and follow the
-- edges.
use dark_stream.Common.{
  ℕ, ◌≡◌, refl, sym, true, false, not, List, [], ◌∷◌, ◌++◌, Option, none, some, String, arith,
  All-append, if◌then◌else◌, Bool-cases, Option-cases, filter-All, count, ltb, inl, inr,
  str_eq-true, subst, ◌⊎◌, str_eq, ◌==◌,
}
use dark_stream.Models.{
  Job, Status, pending, processing, completed, failed, cancelled, is_terminal, status_name,
}
use dark_stream.Tracker.{Store, pure, fail, statement, job_already_exists, invalid_status}
use dark_stream.Tracker.Jobs.{
  has_id, create_job, insert_or_ignore, inserted_row, is_pruned, may_prune, prune_jobs,
  delete_pruned,
}
use dark_stream.Tracker.Rows.{
  find_job, kept, find_job-filter, filter-Keyed, find_job_absent, find_job-append,
  find_job-append_found, append-Keyed,
}
use dark_stream.Lifecycle.{Powers, queued, phase, Edge, Reach, here, IsConsistent, Inv, submit}
use dark_stream.Lifecycle.Lawful.{
  Moves, Lawful, Moves-same, pure-Lawful, fail-Lawful, >>=-Lawful, statement-Lawful,
}
use dark_stream.Lifecycle.Statements.{one, prune_from}

inserted_row-IsConsistent : (j : Job) → j.status ≡ pending → IsConsistent (inserted_row j)
unfolding inserted_row
inserted_row-IsConsistent j e = ground arith

inserted_phase : (j : Job) → j.status ≡ pending → phase (some (inserted_row j)) ≡ queued
unfolding inserted_row
inserted_phase j e = rw e

module _ (j : Job) (fresh : j.status ≡ pending) (js : List Job)
    (new : find_job j.id js ≡ none) where
  submit_Reach :
      {powers : Powers}
      → (id : String)
      → Reach
          (Edge powers)
          (phase (find_job id js))
          (phase (find_job id (js ++ inserted_row j ∷ [])))
  submit_Reach id = elim (Option-cases (find_job id js)) [
    | inr (k, e) ↦ rw (find_job-append_found id js (inserted_row j) k e, e) here
    | inl e ↦ elim (Bool-cases (has_id id (inserted_row j))) [
      | inl hit ↦
          rw (find_job-append id js (inserted_row j) e, hit, e)
            (rw (inserted_phase j fresh) (one submit))
      | inr miss ↦ rw (find_job-append id js (inserted_row j) e, miss, e) here
    ]
  ]

insert_or_ignore-Moves :
    {powers : Powers}
    → (j : Job) (s : Store) → j.status ≡ pending
    → Inv s
    → Moves (Edge powers) s (insert_or_ignore j s).1
unfolding insert_or_ignore
insert_or_ignore-Moves j s fresh v = elim (Bool-cases (ltb 0 (count (has_id j.id) s.jobs))) [
  | inl e ↦ rw e (Moves-same (Edge _) s s v refl)
  | inr e ↦ rw e (record {
    inv = record {
      keyed =
          append-Keyed s.jobs (inserted_row j) v.keyed
            (unfold inserted_row in find_job_absent j.id s.jobs e);
      consistent =
          All-append IsConsistent s.jobs _ v.consistent (inserted_row-IsConsistent j fresh, tt);
    };
    reach = submit_Reach j fresh s.jobs (find_job_absent j.id s.jobs e);
  })
]

-- Only a pending job may be submitted.
pub create_job-Lawful :
    {powers : Powers} → (j : Job) → j.status ≡ pending → Lawful (Edge powers) (create_job j)
unfolding create_job
create_job-Lawful j fresh =
    >>=-Lawful (Edge _) _ counted (statement (insert_or_ignore j))
      (statement-Lawful (Edge _) (insert_or_ignore j) (λ s v. insert_or_ignore-Moves j s fresh v))
  where
    counted :
        {powers : Powers}
        → (n : ℕ) → Lawful (Edge powers) (if n == 0 then fail job_already_exists else pure tt)
    counted n = elim (Bool-cases (n == 0)) [
      | inl e ↦ rw e (fail-Lawful (Edge _) (Unit {0}) job_already_exists)
      | inr e ↦ rw e (pure-Lawful (Edge _) tt)
    ]

-- A status that may be pruned is the name of a terminal one, or `all`.
pub is_pruned_terminal :
    (status : String) (j : Job)
    → may_prune status ≡ true
    → is_pruned status j ≡ true
    → is_terminal j.status ≡ true
unfolding status_name
is_pruned_terminal status j m p = terminal j.status (ground arith)
  where
    refuse : (name : String) → may_prune name ≡ false → str_eq name status ≡ true → ⊥
    refuse name f e =
        let k : may_prune name ≡ true =
          subst (λ t. may_prune t ≡ true) (sym (str_eq-true name status e)) m in
        cc

    terminal :
        (st : Status)
        → (is_terminal st ≡ true) ⊎ (str_eq (status_name st) status ≡ true)
        → is_terminal st ≡ true
    terminal st (inl e) = e
    terminal completed (inr e) = refl
    terminal failed (inr e) = refl
    terminal cancelled (inr e) = refl
    terminal pending (inr e) = absurd (refuse "pending" refl e)
    terminal processing (inr e) = absurd (refuse "processing" refl e)

module _ (status : String) (may : may_prune status ≡ true) where
  pruned_Reach :
      {powers : Powers}
      → powers.prunes ≡ true
      → (o : Option Job)
      → Reach (Edge powers) (phase o) (phase (kept (λ j. not (is_pruned status j)) o))
  pruned_Reach allowed none = here
  pruned_Reach allowed (some j) = elim (Bool-cases (is_pruned status j)) [
    | inl e ↦
        rw e
          (prune_from j.worker_id j.started_at allowed j.status (is_pruned_terminal status j may e))
    | inr e ↦ rw e here
  ]

  delete_pruned-Moves :
      {powers : Powers}
      → powers.prunes ≡ true
      → (s : Store) → Inv s
      → Moves (Edge powers) s (delete_pruned status s).1
  unfolding delete_pruned
  delete_pruned-Moves allowed s v = record {
    inv = record {
      keyed = filter-Keyed _ s.jobs v.keyed;
      consistent = filter-All IsConsistent _ s.jobs v.consistent;
    };
    reach = λ id.
        rw (find_job-filter (λ j. not (is_pruned status j)) id s.jobs v.keyed)
          (pruned_Reach allowed (find_job id s.jobs));
  }

pub prune_jobs-Lawful :
    {powers : Powers}
    → powers.prunes ≡ true
    → (status : String) → Lawful (Edge powers) (prune_jobs status)
unfolding prune_jobs
prune_jobs-Lawful allowed status = elim (Bool-cases (may_prune status)) [
  | inl e ↦
      rw e (statement-Lawful (Edge _) (delete_pruned status) (delete_pruned-Moves status e allowed))
  | inr e ↦ rw e (fail-Lawful (Edge _) ℕ invalid_status)
]
