-- ===== src/Models.antt =====
-- video-converter-common/models/job.go and constants/constants.go: jobs, heartbeats, progress.
-- Times are nanoseconds since the epoch; the floating-point readings are scaled to whole numbers.
use dark_stream.Common.{ℕ, ℤ, ◌*◌, ◌≡◌, Bool, true, false, String, Option, arith, ◌==◌, ◌↔◌}

-- The job statuses of constants.go, and the tracker's `cancelled`.
pub data Status : Type 0 where
  pending processing completed failed cancelled : Status

-- The text that a status is stored and sent as.
unfoldable pub status_name : Status → String
status_name pending = "pending"
status_name processing = "processing"
status_name completed = "completed"
status_name failed = "failed"
status_name cancelled = "cancelled"

abbrev status_rank : Status → ℕ
status_rank pending = 0
status_rank processing = 1
status_rank completed = 2
status_rank failed = 3
status_rank cancelled = 4

abbrev pub status_eq : Status → Status → Bool
status_eq a b = status_rank a == status_rank b

pub status_eq_iff : (a b : Status) → (status_eq a b ≡ true) ↔ (a ≡ b)
status_eq_iff a b = ground arith

-- The statuses that `PruneJobs` deletes for `all`.
abbrev pub is_terminal : Status → Bool
is_terminal completed = true
is_terminal failed = true
is_terminal cancelled = true
is_terminal _ = false

abbrev pub second : ℕ
second = 1000000000

abbrev pub minute : ℕ
minute = 60 * second

-- What FFprobe reports of the source; the duration in microseconds.
pub record VideoMetadata : Type 0 where
  pub duration : ℕ
  pub width : ℕ
  pub height : ℕ
  pub video_codec : String
  pub audio_codec : String
  pub bitrate : ℕ
  pub file_size : ℕ

pub record Job : Type 0 where
  pub id : String
  pub source_path : String
  pub output_path : String
  pub status : Status
  pub priority : ℕ
  pub worker_id : String
  pub started_at : Option ℕ
  pub completed_at : Option ℕ
  pub error_message : String
  pub retry_count : ℕ
  pub max_retries : ℕ
  pub created_at : ℕ
  pub output_size : ℤ
  pub source_checksum : String
  pub output_checksum : String
  pub metadata : VideoMetadata

abbrev pub worker_status_online : String
worker_status_online = "online"

abbrev pub worker_status_offline : String
worker_status_offline = "offline"

abbrev pub worker_status_paused : String
worker_status_paused = "paused"

-- Usage in hundredths of a percent. The timestamp is the wall clock that the worker sends, in nanoseconds, without its
-- offset from UTC.
pub record WorkerHeartbeat : Type 0 where
  pub worker_id : String
  pub hostname : String
  pub vulkan_available : Bool
  pub active_jobs : ℤ
  pub status : String
  pub timestamp : ℕ
  pub gpu : String
  pub cpu_usage : ℤ
  pub memory_usage : ℤ

-- Progress and frame rate in hundredths.
pub record JobProgress : Type 0 where
  pub job_id : String
  pub worker_id : String
  pub progress : ℤ
  pub fps : ℤ
  pub stage : String
  pub updated_at : ℕ

-- The settings that an administrator gives one worker; times in seconds.
pub record WorkerSettings : Type 0 where
  pub worker_id : String
  pub concurrency : ℤ
  pub heartbeat_interval : ℤ
  pub job_check_interval : ℤ
  pub job_timeout : ℤ
  pub max_api_requests_per_min : ℤ
  pub download_timeout : ℤ
  pub upload_timeout : ℤ
  pub max_cache_size : ℤ
  pub cache_cleanup_age : ℤ
  pub bandwidth_limit : ℤ
  pub enable_resume_download : Bool
  pub use_vulkan : Bool
  pub ffmpeg_timeout : ℤ
  pub log_level : String
  pub log_format : String
