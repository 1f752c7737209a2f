-- ===== src/Server/Verdicts/Batches.antt =====
-- What the batch cancellation counts.
use dark_stream.Common.{
  ℕ, suc, ◌+◌, ◌≡◌, ◌≤◌, refl, Bool, true, false, List, [], ◌∷◌, ◌++◌, String, Bool-cases, inl, inr,
  arith, leb, length,
}
use dark_stream.Models.{Job}
use dark_stream.Tracker.{Store, Result, ok, err}
use dark_stream.Tracker.Jobs.{mark_job_cancelled}
use dark_stream.Server.Cancel.{Tally, no_jobs, tallied, cancel_job_batch}

length-append_one : (ids : List String) (id : String) → length (ids ++ id ∷ []) ≡ length ids + 1
length-append_one [] id = omega arith
length-append_one (i ∷ ids) id = let ih = length-append_one ids id in omega arith

-- A tally after some of the jobs: `seen` of them so far.
abbrev IsSound : ℕ → ℕ → Tally → Type 0
IsSound limit seen t =
    (t.cancelled_count ≡ length t.cancelled_ids)
    × (t.cancelled_count ≤ limit)
    × (t.cancelled_count + t.failed_count ≤ seen)

tallied-IsSound :
    (limit seen : ℕ) (t : Tally) (id : String) (r : Result Bool)
    → leb limit t.cancelled_count ≡ false
    → IsSound limit seen t
    → IsSound limit (suc seen) (tallied t id r)
tallied-IsSound limit seen t id (ok true) room h = (
  (let e = length-append_one t.cancelled_ids id in let c = h.0 in omega arith),
  ground arith,
  (let c = h.2 in omega arith),
)
tallied-IsSound limit seen t id (ok false) room h = (h.0, h.1, let c = h.2 in omega arith)
tallied-IsSound limit seen t id (err e) room h = (h.0, h.1, let c = h.2 in omega arith)

cancel_job_batch-IsSound :
    (limit now seen : ℕ) (t : Tally) (js : List Job) (s : Store)
    → IsSound limit seen t
    → (u : Tally) × ((cancel_job_batch limit now t js s).0 ≡ ok u)
      × IsSound limit (seen + length js) u
unfolding cancel_job_batch
cancel_job_batch-IsSound limit now seen t [] s h = (t, refl, (h.0, h.1, let c = h.2 in omega arith))
cancel_job_batch-IsSound limit now seen t (j ∷ js) s h =
    elim (Bool-cases (leb limit t.cancelled_count)) [
      | inl e ↦ rw e (t, refl, (h.0, h.1, let c = h.2 in omega arith))
      | inr e ↦
          let tried =
            mark_job_cancelled j.id "Job cancelled by user (batch cancellation)" j.started_at now
              s in
          let rest =
            cancel_job_batch-IsSound limit now (suc seen) (tallied t j.id tried.0) js tried.1
              (tallied-IsSound limit seen t j.id tried.0 e h) in
          rw e (rest.0, rest.1, (rest.2.0, rest.2.1, let c = rest.2.2 in omega arith))
    ]

-- The batch cancellation always ends with a tally: as many identifiers as jobs are reported cancelled, at most
-- the limit, and together with those that were not cancelled at most as many as were listed.
pub cancel_job_batch_tally :
    (limit now : ℕ) (js : List Job) (s : Store)
    → (t : Tally) × ((cancel_job_batch limit now no_jobs js s).0 ≡ ok t)
      × (t.cancelled_count ≡ length t.cancelled_ids)
      × (t.cancelled_count ≤ limit)
      × (t.cancelled_count + t.failed_count ≤ length js)
cancel_job_batch_tally limit now js s =
    let r = cancel_job_batch-IsSound limit now 0 no_jobs js s (refl, omega arith, omega arith) in
    (r.0, r.1, r.2.0, r.2.1, let c = r.2.2 in omega arith)
