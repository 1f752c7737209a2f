-- ===== src/Coordinator/Scans.antt =====
-- Scanning again never touches a job that is there already.
use dark_stream.Common.{
  ◌≡◌, List, [], ◌∷◌, ◌+◌, some, String, Bool-cases, inl, inr, ltb, ◌==◌, count,
}
use dark_stream.Models.{Job}
use dark_stream.Tracker.{Store, pure, fail, job_already_exists, statement}
use dark_stream.Tracker.Jobs.{create_job, insert_or_ignore, has_id, inserted_row}
use dark_stream.Tracker.Rows.{find_job, find_job-append_found}
use dark_stream.Tracker.Respects.{
  IsFrame, Respects, pure-Respects, fail-Respects, >>=-Respects, statement-Respects,
  try_bind-Respects, if-Respects,
}
use dark_stream.Coordinator.{insert_jobs, periodic_scan, added, rejected}
use dark_stream.Coordinator.Frames.{refresh_queue_depth-Respects}

module _ (id : String) (k : Job) where
  abbrev StaysFiled : Store → Store → Type 0
  StaysFiled s t = find_job id s.jobs ≡ some k → find_job id t.jobs ≡ some k

  StaysFiled-frame : IsFrame StaysFiled
  StaysFiled-frame = record { same = λ s t e _ h. rw e h; trans = λ s t u f g h. g (f h) }

  insert_or_ignore-StaysFiled : (j : Job) (s : Store) → StaysFiled s (insert_or_ignore j s).1
  unfolding insert_or_ignore
  insert_or_ignore-StaysFiled j s h = elim (Bool-cases (ltb 0 (count (has_id j.id) s.jobs))) [
    | inl e ↦ rw e h
    | inr e ↦ rw e (find_job-append_found id s.jobs (inserted_row j) k h)
  ]

  create_job-Respects : (j : Job) → Respects StaysFiled (create_job j)
  unfolding create_job
  create_job-Respects j =
      >>=-Respects StaysFiled-frame (statement (insert_or_ignore j)) _
        (statement-Respects StaysFiled-frame (insert_or_ignore j) (insert_or_ignore-StaysFiled j))
        (λ n.
          if-Respects StaysFiled-frame (n == 0) (fail job_already_exists) (pure tt)
            (fail-Respects StaysFiled-frame (Unit {0}) job_already_exists)
            (pure-Respects StaysFiled-frame tt))

  insert_jobs-Respects : (js : List Job) → Respects StaysFiled (insert_jobs js)
  unfolding insert_jobs
  insert_jobs-Respects [] = pure-Respects StaysFiled-frame (0, 0)
  insert_jobs-Respects (j ∷ js) =
      try_bind-Respects StaysFiled-frame (create_job j) _ (create_job-Respects j) (λ r.
        >>=-Respects StaysFiled-frame (insert_jobs js) _ (insert_jobs-Respects js)
          (λ rest. pure-Respects StaysFiled-frame (added r + rest.0, rejected r + rest.1)))

  periodic_scan-Respects : (js : List Job) → Respects StaysFiled (periodic_scan js)
  unfolding periodic_scan
  periodic_scan-Respects js =
      >>=-Respects StaysFiled-frame (insert_jobs js) _ (insert_jobs-Respects js) (λ counts.
        if-Respects StaysFiled-frame (ltb 0 counts.0) _ _
          (refresh_queue_depth-Respects StaysFiled-frame) (pure-Respects StaysFiled-frame []))

-- A scan, whatever it finds and whatever calls of the database fail, leaves every row as it is that is there before.
pub periodic_scan_keeps :
    (js : List Job) (s : Store) (id : String) (k : Job)
    → find_job id s.jobs ≡ some k
    → find_job id (periodic_scan js s).1.jobs ≡ some k
periodic_scan_keeps js s id k = (periodic_scan-Respects id k js).apply s
