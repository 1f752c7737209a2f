-- ===== src/Scenarios/Workers.antt =====
-- The worker's cache and its polling.
use dark_stream.Server.{codes}
use dark_stream.Worker.Execute.Sound.{
  execute_job-IsSound, process_job_settles, Succeeded, Settled, IsSound,
}
use dark_stream.Worker.Execute.{
  Surroundings, Diagnostics, execute_job, process_job, convert_step, upload_failed, send,
  remove_dir, report_failed,
}
use dark_stream.Scenarios.Samples.{low}
use dark_stream.Worker.Pool.Progress.{pool_progresses, AtRest, CanGoOn}
use dark_stream.Worker.Pool.Bounds.{pool_bounded}
use dark_stream.Worker.Pool.{Pool, started, act, acquire, after, at_start, Reachable}
use dark_stream.Common.{
  str_eq, some, drop, All, ◌⊎◌, none, ◌+◌, ℕ, ◌≤◌, ◌≡◌, ◌*◌, ◌^◌, min, refl, Bool, true, false,
  List, [], ◌∷◌, String, arith, pos, sort_by,
}
use dark_stream.Worker.Polling.{
  Intervals, get_and_update_backoff, initial_backoff, max_backoff, after_empty_polls,
  after_empty_polls_doubles,
}
use dark_stream.Worker.Cache.{
  CacheEntry, CacheManager, total_size, cleanup, sweep, first_pass, age_pass, second_pass,
  size_pass,
}
use dark_stream.Worker.Cache.Bounds.{cleanup_accounts, cleanup_within_limit}

abbrev defaults : Intervals
defaults = record { initial = pos 0; max = pos 0 }

after_empty_polls_doubles_example :
    ((get_and_update_backoff defaults true (after_empty_polls defaults 5 0)).0
      ≡ min (initial_backoff defaults * 2 ^ 5) (max_backoff defaults))
    × ((get_and_update_backoff defaults true (after_empty_polls defaults 5 0)).1
        ≡ min (initial_backoff defaults * 2 ^ 6) (max_backoff defaults))
after_empty_polls_doubles_example = after_empty_polls_doubles defaults 5 0 (omega arith)

abbrev entry : String → ℕ → ℕ → CacheEntry
entry path size mod_time = record { path = path; size = size; mod_time = mod_time }

abbrev files : List CacheEntry
files = entry "new" 40 90 ∷ entry "old" 30 5 ∷ entry "middle" 50 60 ∷ []

abbrev manager : CacheManager
manager = record { max_size = 50; max_age = 80; current_size = 120; stopped = false }

abbrev always : CacheEntry → Bool
always e = true

-- At 100 the file of 5 is too old, and of the others the one of 60 goes first.
cleans : (cleanup always 100 files manager).0 ≡ entry "new" 40 90 ∷ []
unfolding cleanup sweep first_pass age_pass second_pass size_pass sort_by
cleans = refl

cleanup_accounts_example :
    (cleanup always 100 files manager).1.current_size
    ≡ total_size (cleanup always 100 files manager).0
cleanup_accounts_example = cleanup_accounts always 100 files manager refl

cleanup_within_limit_example : total_size (cleanup always 100 files manager).0 ≤ 50
cleanup_within_limit_example =
    cleanup_within_limit always 100 files manager refl (omega arith) (λ e. refl)

-- One of two loops has taken a slot.
abbrev taken : Pool
taken = record (started 2) { waiting = 1; holding = 1; slots = 1 }

taken_reached : Reachable 2 taken
unfolding act
taken_reached = after acquire refl at_start

-- It has started a job, and the other loop finds no slot left after the next round.
one_at_a_time : act 1 acquire (record (started 1) { launched = 1; slots = 1 }) ≡ none
unfolding act
one_at_a_time = refl

pool_bounded_example :
    (taken.asking + taken.launched + taken.active + taken.leaving ≤ 2)
    × (taken.active_jobs ≡ taken.active)
    × (taken.active_jobs ≤ 2)
pool_bounded_example = pool_bounded 2 taken taken_reached

pool_progresses_example : CanGoOn 2 taken ⊎ AtRest 2 taken
pool_progresses_example = pool_progresses 2 (omega arith) taken taken_reached

abbrev parts : Surroundings
parts = record {
  makes_dir = true;
  download = some (1 ∷ 2 ∷ []);
  sha256 = λ file. some "abc";
  equal_fold = str_eq;
  probe = λ file. none;
  fetch_config = none;
  static_config = record { output_format = codes "mkv" };
  convert = λ cfg file. some (3 ∷ []);
  validate = λ video. true;
  upload = λ video. false;
}

abbrev idle : Diagnostics
idle = record {
  active_jobs = 0;
  last_job_id = "";
  last_job_error = none;
  jobs_started = 4;
  jobs_completed = 3;
  jobs_failed = 1;
}

upload_fails : (execute_job parts low).0 ≡ some upload_failed
unfolding execute_job convert_step
upload_fails = refl

-- The directory is removed before the failure is reported.
last_calls : drop 9 (process_job parts low idle).0 ≡ send (3 ∷ []) ∷ remove_dir ∷ report_failed ∷ []
unfolding process_job execute_job convert_step
last_calls = refl

execute_job-IsSound_example :
    All (IsSound parts low) (execute_job parts low).1
    × ((execute_job parts low).0 ≡ none → Succeeded parts low)
execute_job-IsSound_example = execute_job-IsSound parts low

process_job_settles_example : Settled parts low idle (process_job parts low idle)
process_job_settles_example = process_job_settles parts low idle
