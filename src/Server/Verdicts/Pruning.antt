-- ===== src/Server/Verdicts/Pruning.antt =====
-- `PruneJobs` deletes finished jobs only.
use dark_stream.Common.{◌≡◌, refl, sym, ◌∙◌, true, false, not, some, String, Bool-cases, inl, inr}
use mathlib.Core.Bool.{false≢true}
use dark_stream.Models.{Job, is_terminal}
use dark_stream.Tracker.{Store, Result}
use dark_stream.Tracker.Jobs.{prune_jobs, may_prune, is_pruned, delete_pruned}
use dark_stream.Tracker.Rows.{find_job, find_job-filter, kept, Keyed}
use dark_stream.Tracker.Fetching.{try_then}
use dark_stream.Lifecycle.Population.{is_pruned_terminal}
use dark_stream.Server.{Method, delete, Response}
use dark_stream.Server.Operator.{prune, answer_pruned}
use dark_stream.Server.Verdicts.{only-cases, when-cases}

-- From a keyed table and whatever calls of the database fail, no request to prune changes the row of a
-- job that is pending or in processing.
pub prune_keeps_open :
    (method : Method) (status : String) (s : Store) (id : String) (k : Job)
    → Keyed s.jobs
    → find_job id s.jobs ≡ some k
    → is_terminal k.status ≡ false
    → find_job id (prune method status s).1.jobs ≡ some k
unfolding prune prune_jobs delete_pruned
prune_keeps_open method status s id k keyed found still =
    only-cases Kept s delete method _ found λ _.
      when-cases Kept s (may_prune status) _ 400 found λ may. rw may (
        try_then (delete_pruned status) answer_pruned s Kept found
          (find_job-filter (λ j. not (is_pruned status j)) id s.jobs keyed ∙ rw found (stays may)))
  where
    Kept : Result Response × Store → Type 0
    Kept r = find_job id r.1.jobs ≡ some k

    stays : may_prune status ≡ true → kept (λ j. not (is_pruned status j)) (some k) ≡ some k
    stays may = elim (Bool-cases (is_pruned status k)) [
      | inl e ↦ absurd (false≢true (sym still ∙ is_pruned_terminal status k may e))
      | inr e ↦ rw e refl
    ]
