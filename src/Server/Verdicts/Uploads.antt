-- ===== src/Server/Verdicts/Uploads.antt =====
-- `UploadVideo`: a job is completed with the file that it answers for.
use dark_stream.Tracker.Fetching.{fetch_then, looked_up, try_then}
use dark_stream.Tracker.Jobs.{
  has_id, is_held_by, transition, completed_row, exec_job_transition, mark_job_completed,
}
use dark_stream.Tracker.Outcomes.{called}
use dark_stream.Models.{processing, status_eq, Job}
use dark_stream.Tracker.Rows.{find_job_id, find_job, Keyed}
use dark_stream.Server.{validate_job_id, post, Method, Response}
use dark_stream.Tracker.{Store, Result}
use dark_stream.Server.Verdicts.{
  only-cases, when-cases, update-Verdict, err, ok, Updated, TurnedDown, turned_down, Answers,
}
use dark_stream.Metrics.{write_file, Effect}
use dark_stream.Server.Upload.{
  upload_fetched, destination, upload_validated, place_copy, upload_video, checksum_or_empty,
  complete_upload, store_upload, uploaded_bytes, refuse_with, Submission, answer_upload,
}
use dark_stream.Common.{
  sym, subst, inl, if◌then◌else◌, false, Option, Bool, ◌⊎◌, ◌≢◌, ◌≡◌, ◌∷◌, true, some, none, length,
  inr, [], String, ◌++◌, ℕ, pos, refl, arith, List,
}

answer_upload-Answers : (effects : List Effect) (size : ℕ) → Answers (answer_upload effects size)
unfolding answer_upload
answer_upload-Answers effects size = record {
  refused = λ e t. turned_down 500 t (λ e. omega arith);
  conflict = λ t. turned_down 409 t (λ e. omega arith);
  done = λ t. (refl, refl);
}

abbrev effects_of : Result Response → List Effect
effects_of (ok r) = r.effects
effects_of (err _) = []

answer_upload_effects :
    (effects : List Effect) (size : ℕ) (b : Bool) (t : Store)
    → effects_of (answer_upload effects size (ok b) t).0 ≡ effects
unfolding answer_upload
answer_upload_effects effects size true t = refl
answer_upload_effects effects size false t = refl

-- The uploaded bytes are all in their place, which lies in an allowed directory, and the row of the job records their number.
abbrev pub Stored : Submission → String → ℕ → Store → Result Response × Store → Type 0
Stored u id now s r =
    (k : Job) × (path : List ℕ) × (find_job id s.jobs ≡ some k)
    × (status_eq k.status processing ≡ true)
    × (destination u k ≡ some path)
    × (u.copied ≡ none)
    × (u.renames ≡ true)
    × (effects_of r.0 ≡ uploaded_bytes (length u.video) ++ write_file path u.video ∷ [])
    × Updated (completed_row k.worker_id now (pos (length u.video)) (checksum_or_empty u.checksum))
        k s r

module _ (u : Submission) (id : String) (now : ℕ) (s : Store) (keyed : Keyed s.jobs) where
  abbrev Outcome : Result Response × Store → Type 0
  Outcome r = Stored u id now s r ⊎ TurnedDown s r

  down :
      (n : ℕ) (effects : List Effect) (t : Store)
      → n ≢ 200
      → t.jobs ≡ s.jobs
      → Outcome (refuse_with n effects t)
  down n effects t h e = inr (h, e)

  module _ (k : Job) (found : find_job id s.jobs ≡ some k)
      (running : status_eq k.status processing ≡ true) (path : List ℕ)
      (place : destination u k ≡ some path) where
    bytes : List Effect
    bytes = uploaded_bytes (length u.video) ++ write_file path u.video ∷ []

    change : Job → Job
    change = completed_row k.worker_id now (pos (length u.video)) (checksum_or_empty u.checksum)

    upload_effects : effects_of (complete_upload u now path k (called s)).0 ≡ bytes
    unfolding complete_upload mark_job_completed exec_job_transition answer_upload bytes change
    upload_effects =
        try_then (transition (is_held_by k.id k.worker_id k.started_at) change)
          (answer_upload bytes (length u.video)) (called s) (λ r. effects_of r.0 ≡ bytes) refl
          (answer_upload_effects bytes (length u.video) _ _)

    at_id : find_job k.id s.jobs ≡ some k
    at_id = subst (λ x. find_job x s.jobs ≡ some k) (sym (find_job_id id s.jobs found)) found

    held_own : (j : Job) → is_held_by k.id k.worker_id k.started_at j ≡ true → has_id k.id j ≡ true
    held_own j e = ground arith

    completed-Outcome :
        u.copied ≡ none → u.renames ≡ true → Outcome (complete_upload u now path k (called s))
    unfolding complete_upload mark_job_completed exec_job_transition change bytes
    completed-Outcome all renamed =
        elim (update-Verdict (is_held_by k.id k.worker_id k.started_at) change
          (answer_upload bytes (length u.video)) (answer_upload-Answers bytes (length u.video)) s
          keyed k at_id held_own) [
            | inl h ↦ inl (k, path, found, running, place, all, renamed, upload_effects, h.1)
            | inr h ↦ inr h
          ]

    closed-Outcome :
        (closes renames : Bool)
        → u.copied ≡ none
        → u.renames ≡ renames
        → Outcome (
            (if closes
                then if renames
                  then complete_upload u now path k
                  else refuse_with 500 (uploaded_bytes (length u.video))
                else refuse_with 500 (uploaded_bytes (length u.video)))
              (called s))
    closed-Outcome false renames all renamed = down 500 _ (called s) (λ e. omega arith) refl
    closed-Outcome true false all renamed = down 500 _ (called s) (λ e. omega arith) refl
    closed-Outcome true true all renamed = completed-Outcome all renamed

    copied-Outcome : (o : Option ℕ) → u.copied ≡ o → Outcome (place_copy u now path k o (called s))
    copied-Outcome (some n) e = down 500 _ (called s) (λ e. omega arith) refl
    copied-Outcome none e = closed-Outcome u.closes u.renames e refl

    stored-Outcome : Outcome (store_upload u now path k (called s))
    stored-Outcome =
        when-cases Outcome (called s) u.parses _ 400
          (down 400 [] (called s) (λ e. omega arith) refl)
          λ _.
            when-cases Outcome (called s) u.has_video _ 400
              (down 400 [] (called s) (λ e. omega arith) refl)
              λ _.
                when-cases Outcome (called s) u.makes_dir _ 500
                  (down 500 [] (called s) (λ e. omega arith) refl)
                  λ _.
                    when-cases Outcome (called s) u.makes_temp _ 500
                      (down 500 [] (called s) (λ e. omega arith) refl)
                      λ _. copied-Outcome u.copied refl

  validated-Outcome :
      (k : Job)
      → find_job id s.jobs ≡ some k
      → status_eq k.status processing ≡ true
      → (o : Option (List ℕ)) → destination u k ≡ o
      → Outcome (upload_validated u now k o (called s))
  validated-Outcome k found running none e = down 403 [] (called s) (λ e. omega arith) refl
  validated-Outcome k found running (some path) e = stored-Outcome k found running path e

  fetched-Outcome :
      (o : Option Job)
      → find_job id s.jobs ≡ o
      → Outcome (upload_fetched u now (looked_up o) (called s))
  fetched-Outcome none e = down 404 [] (called s) (λ e. omega arith) refl
  fetched-Outcome (some k) e =
      when-cases Outcome (called s) (status_eq k.status processing) _ 400
        (down 400 [] (called s) (λ e. omega arith) refl)
        λ running. validated-Outcome k e running (destination u k) refl

-- From a keyed table an upload is answered 200 only if the job that it names is in processing, its output path lies in
-- an allowed directory and the whole file has been copied and renamed to that path; then exactly the row of the job
-- is completed, with the number of bytes of the file. On any other answer no row has changed. That holds for
-- every outcome of the file system's calls and whatever calls of the database fail.
pub upload_video_verdict :
    (u : Submission) (method : Method) (id : String) (now : ℕ) (s : Store)
    → Keyed s.jobs
    → Stored u id now s (upload_video u method id now s)
      ⊎ TurnedDown s (upload_video u method id now s)
unfolding upload_video
upload_video_verdict u method id now s keyed =
    only-cases (Outcome u id now s keyed) s post method _
      (down u id now s keyed 405 [] s (λ e. omega arith) refl)
      λ _.
        when-cases (Outcome u id now s keyed) s (validate_job_id id) _ 400
          (down u id now s keyed 400 [] s (λ e. omega arith) refl)
          λ _.
            fetch_then id (upload_fetched u now) s (Outcome u id now s keyed)
              (down u id now s keyed 404 [] (called s) (λ e. omega arith) refl)
              (fetched-Outcome u id now s keyed (find_job id s.jobs) refl)
