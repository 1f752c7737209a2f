-- ===== src/Tracker/Lookup.antt =====
-- tracker.go: the statements that read the jobs table.
-- Where an `ORDER BY` leaves two rows tied, the model keeps the order of insertion.
use dark_stream.Common.{
  ◌/◌, ℕ, ◌+◌, min, Bool, true, false, not, ◌&&◌, ◌||◌, List, [], ◌∷◌, Option, none, some, String,
  if◌then◌else◌, ltb, leb, ◌==◌, str_eq, filter, count, take, sort_by, ℤ, pos, negsuc,
}
use dark_stream.Models.{
  Status, pending, processing, completed, failed, cancelled, status_eq, second, Job,
}
use dark_stream.Tracker.{no_rows, negative_limit, M, pure, fail, ◌>>=◌, query}
use dark_stream.Tracker.Jobs.{has_id}

-- The first row, as `QueryRow(…).Scan` takes it.
abbrev pub first_row : List Job → M Job
first_row [] = fail no_rows
first_row (j ∷ _) = pure j

unfoldable pub get_job_by_id : String → M Job
get_job_by_id id = do rows ← query λ s. filter (has_id id) s.jobs; first_row rows

-- `ORDER BY priority DESC, created_at ASC`.
abbrev pub comes_before : Job → Job → Bool
comes_before a b =
    ltb b.priority a.priority || (a.priority == b.priority && leb a.created_at b.created_at)

abbrev pub is_pending : Job → Bool
is_pending j = status_eq j.status pending

-- The queue: the pending jobs, the most urgent first.
unfoldable pub pending_queue : List Job → List Job
pending_queue jobs = sort_by comes_before (filter is_pending jobs)

unfoldable pub get_next_pending_job : M Job
unfolding pending_queue
get_next_pending_job = do rows ← query λ s. take 1 (pending_queue s.jobs); first_row rows

-- A limit of 0 or less reads 1, and one above 100 reads 100.
abbrev batch_limit : ℕ → ℕ
batch_limit limit = if limit == 0 then 1 else min limit 100

unfoldable pub get_next_pending_jobs : ℕ → M (List Job)
unfolding pending_queue
get_next_pending_jobs limit = query λ s. take (batch_limit limit) (pending_queue s.jobs)

unfoldable pub count_pending_jobs : M ℕ
count_pending_jobs = query λ s. count is_pending s.jobs

abbrev pub blocks_checksum : String → Job → Bool
blocks_checksum checksum j =
    str_eq j.source_checksum checksum
    && not (status_eq j.status failed || status_eq j.status cancelled)

unfoldable pub has_job_with_source_checksum : String → M Bool
has_job_with_source_checksum checksum =
    if str_eq checksum ""
    then pure false
    else (query λ s. ltb 0 (count (blocks_checksum checksum) s.jobs))

-- `GROUP BY status`: a status that no row has is not listed.
abbrev group : List Job → List Status → List (Status × ℕ)
group jobs [] = []
group jobs (st ∷ sts) =
    let n = count (λ j. status_eq j.status st) jobs in
    let rest = group jobs sts in if n == 0 then rest else (st, n) ∷ rest

unfoldable pub get_job_stats : M (List (Status × ℕ))
get_job_stats = query λ s. group s.jobs (pending ∷ processing ∷ completed ∷ failed ∷ cancelled ∷ [])

-- `ORDER BY created_at DESC`.
abbrev newer : Job → Job → Bool
newer a b = leb b.created_at a.created_at

-- A limit of 0 sets no `LIMIT`.
abbrev limited : ℕ → List Job → List Job
limited limit rows = if limit == 0 then rows else take limit rows

unfoldable pub get_jobs_by_status : Status → ℤ → M (List Job)
get_jobs_by_status st (negsuc _) = fail negative_limit
get_jobs_by_status st (pos limit) =
    query λ s. limited limit (sort_by newer (filter (λ j. status_eq j.status st) s.jobs))

-- `created_at BETWEEN ? AND ?`.
unfoldable pub get_job_history : ℕ → ℕ → ℤ → M (List Job)
get_job_history start end (negsuc _) = fail negative_limit
get_job_history start end (pos limit) = query λ s.
    limited limit
      (sort_by newer (filter (λ j. leb start j.created_at && leb j.created_at end) s.jobs))

-- `ORDER BY started_at ASC`: NULL comes first.
abbrev started_earlier : Option ℕ → Option ℕ → Bool
started_earlier none _ = true
started_earlier (some a) none = false
started_earlier (some a) (some b) = leb a b

abbrev pub started_before : Job → Job → Bool
started_before a b = started_earlier a.started_at b.started_at

-- `started_at IS NOT NULL AND started_at <= datetime('now', '-N seconds')`, of texts: that of the column goes on after
-- the seconds, so that on the same second it is the greater one.
abbrev pub started_long_ago : ℕ → ℕ → Option ℕ → Bool
started_long_ago timeout now none = false
started_long_ago timeout now (some t) = ltb (t / second + timeout) (now / second)

abbrev pub is_stale : ℕ → ℕ → Job → Bool
is_stale timeout now j = status_eq j.status processing && started_long_ago timeout now j.started_at

unfoldable pub get_stale_processing_jobs : ℕ → ℕ → M (List Job)
get_stale_processing_jobs timeout now =
    query λ s. sort_by started_before (filter (is_stale timeout now) s.jobs)

abbrev pub is_retryable : Job → Bool
is_retryable j = status_eq j.status failed && ltb j.retry_count j.max_retries

-- `ORDER BY created_at ASC`.
abbrev pub older : Job → Job → Bool
older a b = leb a.created_at b.created_at

unfoldable pub get_retryable_failed_jobs : M (List Job)
get_retryable_failed_jobs = query λ s. sort_by older (filter is_retryable s.jobs)

abbrev pub is_running_on : String → Job → Bool
is_running_on worker j = str_eq j.worker_id worker && status_eq j.status processing

unfoldable pub get_jobs_for_worker : String → M (List Job)
get_jobs_for_worker worker =
    query λ s. sort_by started_before (filter (is_running_on worker) s.jobs)
