-- ===== src/Tracker/Workers.antt =====
-- tracker.go: the workers table and the progress table.
use dark_stream.Common.{
  arith, ◌≡◌, ℕ, ◌+◌, ◌/◌, Bool, not, List, [], ◌∷◌, ◌++◌, map, String, if◌then◌else◌, ltb, leb,
  str_eq, filter, count, sort_by,
}
use dark_stream.Models.{
  second, WorkerHeartbeat, JobProgress, worker_status_offline, worker_status_paused,
}
use dark_stream.Tracker.{Store, no_rows, M, pure, fail, ◌>>=◌, query, exec}

abbrev pub is_worker : String → WorkerHeartbeat → Bool
is_worker id w = str_eq w.worker_id id

abbrev pub set_where : String → (WorkerHeartbeat → WorkerHeartbeat) → Store → Store
set_where id change s = record s {
  workers = map (λ w. if is_worker id w then change w else w) s.workers;
}

unfoldable pub set_worker_status : String → String → M (Unit {0})
set_worker_status id status = exec (set_where id (λ w. record w { status = status }))

unfoldable pub delete_worker : String → M (Unit {0})
delete_worker id = exec λ s. record s { workers = filter (λ w. not (is_worker id w)) s.workers }

-- `ON CONFLICT(id) DO UPDATE`: the host and the devices stay, and a paused worker stays paused.
abbrev pub refreshed : WorkerHeartbeat → WorkerHeartbeat → WorkerHeartbeat
refreshed hb w = record w {
  timestamp = hb.timestamp;
  active_jobs = hb.active_jobs;
  cpu_usage = hb.cpu_usage;
  memory_usage = hb.memory_usage;
  status = if str_eq w.status worker_status_paused then worker_status_paused else hb.status;
}

unfoldable pub upsert_worker : WorkerHeartbeat → Store → Store
upsert_worker hb s =
    if ltb 0 (count (is_worker hb.worker_id) s.workers)
    then set_where hb.worker_id (refreshed hb) s
    else record s { workers = s.workers ++ hb ∷ [] }

unfoldable pub update_worker_heartbeat : WorkerHeartbeat → M (Unit {0})
unfolding upsert_worker
update_worker_heartbeat hb = exec (upsert_worker hb)

unfoldable pub mark_worker_offline : String → M (Unit {0})
mark_worker_offline id = exec (set_where id (λ w. record w { status = worker_status_offline }))

-- `ORDER BY last_heartbeat DESC`.
abbrev pub heard_later : WorkerHeartbeat → WorkerHeartbeat → Bool
heard_later a b = leb b.timestamp a.timestamp

unfoldable pub get_workers : M (List WorkerHeartbeat)
get_workers = query λ s. sort_by heard_later s.workers

-- `last_heartbeat >= datetime('now', '-N seconds')`, which compares texts: the column has the wall clock of the
-- worker, whatever its offset, and the master's is in whole seconds of UTC.
abbrev pub is_active : ℕ → ℕ → WorkerHeartbeat → Bool
is_active threshold now w = leb (now / second) (w.timestamp / second + threshold)

unfoldable pub get_active_workers : ℕ → ℕ → M (List WorkerHeartbeat)
get_active_workers threshold now =
    query λ s. sort_by heard_later (filter (is_active threshold now) s.workers)

abbrev pub progress_of : String → JobProgress → Bool
progress_of id p = str_eq p.job_id id

-- The worker that reported first stays on the row.
abbrev advanced : JobProgress → JobProgress → JobProgress
advanced new p = record p {
  progress = new.progress;
  fps = new.fps;
  stage = new.stage;
  updated_at = new.updated_at;
}

pub upsert_progress : JobProgress → Store → Store
upsert_progress new s =
    if ltb 0 (count (progress_of new.job_id) s.progress)
    then record s {
      progress = map (λ p. if progress_of new.job_id p then advanced new p else p) s.progress;
    }
    else record s { progress = s.progress ++ new ∷ [] }

unfoldable pub update_job_progress : JobProgress → M (Unit {0})
unfolding upsert_progress
update_job_progress new = exec (upsert_progress new)

abbrev pub first_progress : List JobProgress → M JobProgress
first_progress [] = fail no_rows
first_progress (p ∷ _) = pure p

unfoldable pub get_job_progress : String → M JobProgress
get_job_progress id = do rows ← query λ s. filter (progress_of id) s.progress; first_progress rows

unfoldable pub delete_job_progress : String → M (Unit {0})
delete_job_progress id =
    exec λ s. record s { progress = filter (λ p. not (progress_of id p)) s.progress }

pub upsert_progress-jobs : (p : JobProgress) (s : Store) → (upsert_progress p s).jobs ≡ s.jobs
unfolding upsert_progress
upsert_progress-jobs p s = ground arith

pub upsert_progress-faults : (p : JobProgress) (s : Store) → (upsert_progress p s).faults ≡ s.faults
unfolding upsert_progress
upsert_progress-faults p s = ground arith

pub upsert_worker-jobs : (hb : WorkerHeartbeat) (s : Store) → (upsert_worker hb s).jobs ≡ s.jobs
unfolding upsert_worker
upsert_worker-jobs hb s = ground arith

pub upsert_worker-faults :
    (hb : WorkerHeartbeat) (s : Store) → (upsert_worker hb s).faults ≡ s.faults
unfolding upsert_worker
upsert_worker-faults hb s = ground arith
