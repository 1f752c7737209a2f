-- ===== src/Tracker/Jobs.antt =====
-- tracker.go: the statements that change the jobs table, and the progress table beside it.
use dark_stream.Common.{
  ℤ, pos, ℕ, ◌+◌, Bool, true, false, not, ◌&&◌, ◌||◌, List, [], ◌∷◌, ◌++◌, map, Option, none, some,
  String, if◌then◌else◌, ltb, ◌==◌, str_eq, filter, count,
}
use dark_stream.Models.{
  Status, pending, processing, completed, failed, cancelled, status_eq, status_name, is_terminal,
  Job, VideoMetadata,
}
use dark_stream.Tracker.{
  Store, job_already_exists, job_not_found, invalid_status, M, pure, fail, ◌>>=◌, statement,
}

-- `UPDATE jobs SET change WHERE test`: every row that passes.
unfoldable pub update_where : (Job → Bool) → (Job → Job) → List Job → List Job
update_where test change = map λ j. if test j then change j else j

abbrev pub has_id : String → Job → Bool
has_id id j = str_eq j.id id

-- `WHERE started_at = ?`; a NULL column equals nothing.
abbrev pub started_at_is : ℕ → Option ℕ → Bool
started_at_is t none = false
started_at_is t (some u) = u == t

-- ` AND started_at = ?` is appended only if a value is expected.
abbrev pub matches_start : Option ℕ → Option ℕ → Bool
matches_start none actual = true
matches_start (some t) actual = started_at_is t actual

abbrev pub no_metadata : VideoMetadata
no_metadata = record {
  duration = 0;
  width = 0;
  height = 0;
  video_codec = "";
  audio_codec = "";
  bitrate = 0;
  file_size = 0;
}

-- The row that `INSERT` writes: the columns that it does not list are NULL, read as empty.
unfoldable pub inserted_row : Job → Job
inserted_row j = record j {
  worker_id = "";
  started_at = none;
  completed_at = none;
  error_message = "";
  output_size = pos 0;
  output_checksum = "";
  metadata = no_metadata;
}

-- `INSERT OR IGNORE`, with the number of rows that it added.
unfoldable pub insert_or_ignore : Job → Store → ℕ × Store
unfolding inserted_row
insert_or_ignore j s =
    if ltb 0 (count (has_id j.id) s.jobs)
    then (0, s)
    else (1, record s { jobs = s.jobs ++ inserted_row j ∷ [] })

unfoldable pub create_job : Job → M (Unit {0})
unfolding insert_or_ignore
create_job j = do
  rows_affected ← statement (insert_or_ignore j)
  if rows_affected == 0 then fail job_already_exists else pure tt

-- A conditional update, and whether it matched a row.
abbrev pub transition : (Job → Bool) → (Job → Job) → Store → Bool × Store
transition test change s =
    (ltb 0 (count test s.jobs), record s { jobs = update_where test change s.jobs })

unfoldable pub exec_job_transition : (Job → Bool) → (Job → Job) → M Bool
exec_job_transition test change = statement (transition test change)

unfoldable pub update_job_priority : String → ℕ → M (Unit {0})
unfolding exec_job_transition
update_job_priority id priority = do
  found ← exec_job_transition (has_id id) (λ j. record j { priority = priority })
  if found then pure tt else fail job_not_found

-- The columns that `UpdateJob` sets.
abbrev overwrite : Job → Job → Job
overwrite new j = record j {
  status = new.status;
  priority = new.priority;
  worker_id = new.worker_id;
  started_at = new.started_at;
  completed_at = new.completed_at;
  error_message = new.error_message;
  retry_count = new.retry_count;
  output_size = new.output_size;
  source_checksum = new.source_checksum;
  output_checksum = new.output_checksum;
  metadata = new.metadata;
}

unfoldable pub update_job : Job → M (Unit {0})
unfolding exec_job_transition
update_job new = do _ ← exec_job_transition (has_id new.id) (overwrite new); pure tt

-- The tests that `ResetJobToPending` appends for the values that are not empty.
abbrev pub expects_status : Option Status → Status → Bool
expects_status none actual = true
expects_status (some expected) actual = status_eq actual expected

abbrev pub expects_worker : String → String → Bool
expects_worker expected actual = str_eq expected "" || str_eq actual expected

abbrev pub reset_row : Bool → Job → Job
reset_row increment_retry j = record j {
  status = pending;
  worker_id = "";
  started_at = none;
  completed_at = none;
  error_message = "";
  output_size = pos 0;
  output_checksum = "";
  retry_count = if increment_retry then j.retry_count + 1 else j.retry_count;
}

abbrev pub may_reset : String → Option Status → String → Option ℕ → Job → Bool
may_reset id status worker start j =
    has_id id j
    && expects_status status j.status
    && expects_worker worker j.worker_id
    && matches_start start j.started_at

unfoldable pub reset_job_to_pending : String → Bool → Option Status → String → Option ℕ → M Bool
unfolding exec_job_transition
reset_job_to_pending id increment_retry status worker start =
    exec_job_transition (may_reset id status worker start) (reset_row increment_retry)

-- `WHERE id = ? AND status = 'processing' AND worker_id = ?`, and the start time if one is given.
abbrev pub is_held_by : String → String → Option ℕ → Job → Bool
is_held_by id worker start j =
    has_id id j
    && status_eq j.status processing
    && str_eq j.worker_id worker
    && matches_start start j.started_at

abbrev pub completed_row : String → ℕ → ℤ → String → Job → Job
completed_row worker now size checksum j = record j {
  status = completed;
  worker_id = worker;
  completed_at = some now;
  output_size = size;
  output_checksum = checksum;
  error_message = "";
}

unfoldable pub mark_job_completed : String → String → ℤ → String → Option ℕ → ℕ → M Bool
unfolding exec_job_transition
mark_job_completed id worker size checksum start now =
    exec_job_transition (is_held_by id worker start) (completed_row worker now size checksum)

abbrev pub failed_row : String → String → ℕ → Job → Job
failed_row worker message now j = record j {
  status = failed;
  worker_id = worker;
  error_message = message;
  completed_at = some now;
}

unfoldable pub mark_job_failed : String → String → String → Option ℕ → ℕ → M Bool
unfolding exec_job_transition
mark_job_failed id worker message start now =
    exec_job_transition (is_held_by id worker start) (failed_row worker message now)

unfoldable pub mark_job_failed_permanently : String → String → String → ℕ → Option ℕ → M Bool
unfolding exec_job_transition
mark_job_failed_permanently id worker message completed_at start =
    exec_job_transition (is_held_by id worker start) (failed_row worker message completed_at)

abbrev pub may_cancel : String → Option ℕ → Job → Bool
may_cancel id start j =
    has_id id j
    && (status_eq j.status pending || status_eq j.status processing)
    && matches_start start j.started_at

abbrev pub cancelled_row : String → ℕ → Job → Job
cancelled_row message now j = record j {
  status = cancelled;
  completed_at = some now;
  error_message = message;
}

unfoldable pub mark_job_cancelled : String → String → Option ℕ → ℕ → M Bool
unfolding exec_job_transition
mark_job_cancelled id message start now =
    exec_job_transition (may_cancel id start) (cancelled_row message now)

-- `status IN ('completed', 'failed', 'cancelled')`, or the one that is named.
abbrev pub is_pruned : String → Job → Bool
is_pruned status j =
    if str_eq status "all" then is_terminal j.status else str_eq (status_name j.status) status

abbrev pub may_prune : String → Bool
may_prune status =
    str_eq status "completed"
    || str_eq status "failed"
    || str_eq status "cancelled"
    || str_eq status "all"

unfoldable pub delete_pruned : String → Store → ℕ × Store
delete_pruned status s =
    let gone = is_pruned status in
    (count gone s.jobs, record s { jobs = filter (λ j. not (gone j)) s.jobs })

unfoldable pub prune_jobs : String → M ℕ
unfolding delete_pruned status_name
prune_jobs status =
    if may_prune status then statement (delete_pruned status) else fail invalid_status
