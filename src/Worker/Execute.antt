-- ===== src/Worker/Execute.antt =====
-- worker.go: `executeJob` and `processJob`, the life of one job in the worker. A file is the list of its bytes.
pub mod Sound
use dark_stream.Common.{
  ◌∷◌, ℕ, suc, str_eq, some, none, if◌then◌else◌, [], String, Option, List, Bool, ◌-◌, ◌++◌,
}
use dark_stream.FilePath.{ext}
use dark_stream.Models.{VideoMetadata, Job}
use dark_stream.Server.{codes}

-- Of the settings only the format is looked at here.
pub record Settings : Type 0 where
  pub output_format : List ℕ

-- What the worker asks of its parts: the cache directory, the file that a download leaves, SHA-256 and the comparison of
-- checksums, FFprobe, the settings of the master, FFmpeg, the check of its output, and the upload.
pub record Surroundings : Type 0 where
  pub makes_dir : Bool
  pub download : Option (List ℕ)
  pub sha256 : List ℕ → Option String
  pub equal_fold : String → String → Bool
  pub probe : List ℕ → Option VideoMetadata
  pub fetch_config : Option Settings
  pub static_config : Settings
  pub convert : Settings → List ℕ → Option (List ℕ)
  pub validate : List ℕ → Bool
  pub upload : List ℕ → Bool

pub data JobError : Type 0 where
  no_directory download_failed checksum_error checksum_mismatch conversion_failed validation_failed
        upload_failed :
      JobError

-- What is done, in order. `report_progress` has the percentage and the stage.
pub data Call : Type 0 where
  make_dir fetch_source verify_source probe_source fetch_settings check_output remove_dir
        report_failed :
      Call
  report_progress : ℕ → String → Call
  convert_to : List ℕ → Call
  send : List ℕ → Call

abbrev pub Execution : Type 0
Execution = Option JobError × List Call

abbrev pub mp4_extension : List ℕ
mp4_extension = codes ".mp4"

abbrev pub extension_or_mp4 : List ℕ → List ℕ
extension_or_mp4 [] = mp4_extension
extension_or_mp4 (c ∷ s) = c ∷ s

-- The extension of the local output.
unfoldable pub output_extension : Settings → String → List ℕ
output_extension cfg output_path = named cfg.output_format
  where
    named : List ℕ → List ℕ
    named [] = extension_or_mp4 (ext (codes output_path))
    named (c ∷ s) = b'.' ∷ c ∷ s

abbrev pub config_or_static : Surroundings → Option Settings → Settings
config_or_static s none = s.static_config
config_or_static s (some cfg) = cfg

abbrev pub then_call : List Call → Execution → Execution
then_call calls e = (e.0, calls ++ e.1)

abbrev pub upload_step : Surroundings → List ℕ → Execution
upload_step s video = (if s.upload video then none else some upload_failed, send video ∷ [])

abbrev pub check_step : Surroundings → List ℕ → Execution
check_step s video =
    if s.validate video
    then then_call (check_output ∷ report_progress 100 "upload" ∷ []) (upload_step s video)
    else (some validation_failed, check_output ∷ [])

abbrev pub converted_step : Surroundings → List ℕ → Option (List ℕ) → Execution
converted_step s extension none = (some conversion_failed, convert_to extension ∷ [])
converted_step s extension (some video) = then_call (convert_to extension ∷ []) (check_step s video)

unfoldable pub convert_step : Surroundings → Job → List ℕ → Execution
convert_step s job file =
    let cfg = config_or_static s s.fetch_config in
    then_call (probe_source ∷ report_progress 0 "convert" ∷ fetch_settings ∷ [])
      (converted_step s (output_extension cfg job.output_path) (s.convert cfg file))

abbrev pub verified_step : Surroundings → Job → List ℕ → Option String → Execution
verified_step s job file none = (some checksum_error, verify_source ∷ [])
verified_step s job file (some sum) =
    if s.equal_fold sum job.source_checksum
    then then_call (verify_source ∷ []) (convert_step s job file)
    else (some checksum_mismatch, verify_source ∷ [])

-- A job without a checksum is not verified.
abbrev pub verify_step : Surroundings → Job → List ℕ → Execution
verify_step s job file =
    if str_eq job.source_checksum ""
    then convert_step s job file
    else verified_step s job file (s.sha256 file)

abbrev pub download_step : Surroundings → Job → Option (List ℕ) → Execution
download_step s job none = (some download_failed, fetch_source ∷ [])
download_step s job (some file) = then_call (fetch_source ∷ []) (verify_step s job file)

-- The directory is removed however the job ends.
abbrev pub with_cleanup : Execution → Execution
with_cleanup e = (e.0, e.1 ++ remove_dir ∷ [])

unfoldable pub execute_job : Surroundings → Job → Execution
execute_job s job =
    then_call (report_progress 0 "download" ∷ make_dir ∷ []) (
      if s.makes_dir
      then with_cleanup (download_step s job s.download)
      else (some no_directory, []))

-- The metadata that FFprobe finds is kept in the worker's copy of the job.
abbrev pub apply_metadata : Option VideoMetadata → Job → Job
apply_metadata none job = job
apply_metadata (some metadata) job = record job { metadata = metadata }

-- What the diagnostics count.
pub record Diagnostics : Type 0 where
  pub active_jobs : ℕ
  pub last_job_id : String
  pub last_job_error : Option JobError
  pub jobs_started : ℕ
  pub jobs_completed : ℕ
  pub jobs_failed : ℕ

abbrev pub mark_job_started : String → Diagnostics → Diagnostics
mark_job_started id d = record d {
  last_job_id = id;
  last_job_error = none;
  jobs_started = suc d.jobs_started;
}

abbrev pub mark_job_finished : String → Option JobError → Diagnostics → Diagnostics
mark_job_finished id none d = record d {
  last_job_id = id;
  last_job_error = none;
  jobs_completed = suc d.jobs_completed;
}
mark_job_finished id (some e) d = record d {
  last_job_id = id;
  last_job_error = some e;
  jobs_failed = suc d.jobs_failed;
}

abbrev pub report_of : Option JobError → List Call
report_of none = []
report_of (some _) = report_failed ∷ []

-- The calls, and the diagnostics afterwards.
unfoldable pub process_job : Surroundings → Job → Diagnostics → List Call × Diagnostics
process_job s job d =
    let e = execute_job s job in
    let running = mark_job_started job.id (record d { active_jobs = suc d.active_jobs }) in
    let finished = mark_job_finished job.id e.0 running in
    (e.1 ++ report_of e.0, record finished { active_jobs = finished.active_jobs - 1 })
