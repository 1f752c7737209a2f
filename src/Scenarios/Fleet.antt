-- ===== src/Scenarios/Fleet.antt =====
-- Workers, batches and scans.
use dark_stream.Common.{
  ℕ, ◌≤◌, ◌≡◌, refl, true, false, [], ◌∷◌, some, String, filter, sort_by, pos, ◌*◌,
}
use dark_stream.Models.{WorkerHeartbeat, worker_status_online, worker_status_paused, second}
use dark_stream.Tracker.{Store}
use dark_stream.Tracker.Workers.{is_active, heard_later}
use dark_stream.Tracker.Rows.{find_job, Keyed}
use dark_stream.Server.{get, post, delete, number}
use dark_stream.Server.Assign.{find_worker, get_next_jobs}
use dark_stream.Server.Reports.{worker_heartbeat}
use dark_stream.Server.Operator.{prune}
use dark_stream.Server.Verdicts.Capacity.{handed, quota, get_next_jobs_capacity}
use dark_stream.Server.Verdicts.Pruning.{prune_keeps_open}
use dark_stream.Server.Verdicts.Pauses.{is_paused, worker_heartbeat_keeps_pause}
use dark_stream.Scenarios.Samples.{two_pending, running, mixed}

-- A worker that runs 3 jobs, and one that is paused.
abbrev worker : String → ℕ → String → WorkerHeartbeat
worker id jobs status = record {
  worker_id = id;
  hostname = "host";
  vulkan_available = true;
  active_jobs = pos jobs;
  status = status;
  timestamp = 1 * second;
  gpu = "";
  cpu_usage = pos 0;
  memory_usage = pos 0;
}

abbrev busy : WorkerHeartbeat
busy = worker "w1" 3 worker_status_online

abbrev resting : WorkerHeartbeat
resting = worker "w2" 0 worker_status_paused

abbrev staffed : Store
staffed = record two_pending { workers = busy ∷ resting ∷ [] }

staffed-Keyed : Keyed staffed.jobs
unfolding find_job
staffed-Keyed = (refl, (refl, tt))

busy_is_known :
    find_worker "w1" (sort_by heard_later (filter (is_active 120 (2 * second)) staffed.workers))
    ≡ some busy
unfolding sort_by
busy_is_known = refl

get_next_jobs_capacity_example :
    handed (get_next_jobs get false "w1" (number (pos 9)) (2 * second) staffed).0 ≤ quota busy
get_next_jobs_capacity_example =
    get_next_jobs_capacity get false "w1" (number (pos 9)) (2 * second) staffed busy staffed-Keyed
      refl busy_is_known

worker_heartbeat_keeps_pause_example :
    is_paused (
      find_worker "w2"
        (worker_heartbeat post (some (worker "w2" 1 worker_status_online)) 9 staffed).1.workers)
    ≡ true
worker_heartbeat_keeps_pause_example =
    worker_heartbeat_keeps_pause post (worker "w2" 1 worker_status_online) 9 staffed "w2" refl

finds_running_row : find_job "running" mixed.jobs ≡ some running
unfolding find_job
finds_running_row = refl

mixed_is_Keyed : Keyed mixed.jobs
unfolding find_job
mixed_is_Keyed = (refl, (refl, (refl, tt)))

prune_keeps_open_example : find_job "running" (prune delete "all" mixed).1.jobs ≡ some running
prune_keeps_open_example =
    prune_keeps_open delete "all" mixed "running" running mixed_is_Keyed finds_running_row refl
