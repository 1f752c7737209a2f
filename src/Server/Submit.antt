-- ===== src/Server/Submit.antt =====
-- http.go: `submitJob`, a job that is submitted by hand.
use dark_stream.Containment.{validate_path_in_allowed_dirs}
use dark_stream.FilePath.{ext, trim_suffix, join_paths, base_name, relative}
use dark_stream.Common.{
  List, ◌++◌, ℕ, Bool, [], Option, none, some, String, if◌then◌else◌, ltb, str_eq, ℤ, pos, negsuc,
}
use dark_stream.Models.{Job, pending}
use dark_stream.Tracker.{Result, ok, err, job_already_exists, M, pure, ◌>>=◌, try}
use dark_stream.Tracker.Jobs.{create_job, no_metadata}
use dark_stream.Server.{codes, Response, one_job, refuse}

pub record SubmitRequest : Type 0 where
  pub source_path : String
  pub output_path : String
  pub priority : Option ℤ

-- What the handler uses of the server and of the system: the working directory, the directories that paths may lie in, the
-- root and the output directory of the scanner, whether a file exists, the first 16 hexadecimal digits of the SHA-256 of
-- a path, and the text of code points.
pub record Paths : Type 0 where
  pub cwd : Option (List ℕ)
  pub allowed_dirs : List (List ℕ)
  pub root_path : List ℕ
  pub output_base : List ℕ
  pub exists : List ℕ → Bool
  pub digits : List ℕ → List ℕ
  pub text : List ℕ → String

abbrev pub allowed : Paths → String → Option (List ℕ)
allowed paths asked = validate_path_in_allowed_dirs paths.cwd paths.allowed_dirs (codes asked)

-- 5, unless a priority between 0 and 10 is asked for.
unfoldable pub submitted_priority : Option ℤ → ℕ
submitted_priority none = 5
submitted_priority (some (negsuc _)) = 5
submitted_priority (some (pos n)) = if ltb 10 n then 5 else n

unfoldable pub submitted_job : String → String → String → ℕ → ℕ → Job
submitted_job id source output priority now = record {
  id = id;
  source_path = source;
  output_path = output;
  status = pending;
  priority = priority;
  worker_id = "";
  started_at = none;
  completed_at = none;
  error_message = "";
  retry_count = 0;
  max_retries = 3;
  created_at = now;
  output_size = pos 0;
  source_checksum = "";
  output_checksum = "";
  metadata = no_metadata;
}

unfoldable pub answer_created : Job → Result (Unit {0}) → M Response
answer_created j (err job_already_exists) = refuse 409
answer_created j (err _) = refuse 500
answer_created j (ok _) = pure (record { code = 201; body = one_job j; effects = [] })

abbrev pub or_base_name : List ℕ → Option (List ℕ) → List ℕ
or_base_name source none = base_name source
or_base_name source (some path) = path

-- The place in the output directory, for a source relative to the root.
abbrev pub default_output : Paths → List ℕ → List ℕ
default_output paths source =
    let place = or_base_name source (relative paths.root_path source) in
    join_paths paths.output_base (trim_suffix place (ext source) ++ codes ".mp4")

-- The output path that was asked for, if it is allowed, or the derived one.
abbrev pub output_of : Paths → List ℕ → String → Option (List ℕ)
output_of paths source asked =
    if str_eq asked "" then some (default_output paths source) else allowed paths asked

abbrev pub job_for : Paths → SubmitRequest → ℕ → List ℕ → List ℕ → Job
job_for paths req now source output =
    submitted_job (paths.text (paths.digits source)) (paths.text source) (paths.text output)
      (submitted_priority req.priority) now

unfoldable pub submit_to : Paths → SubmitRequest → ℕ → List ℕ → Option (List ℕ) → M Response
submit_to paths req now source none = refuse 403
submit_to paths req now source (some output) = do
  created ← try (create_job (job_for paths req now source output))
  answer_created (job_for paths req now source output) created

unfoldable pub submit_validated : Paths → SubmitRequest → ℕ → Option (List ℕ) → M Response
submit_validated paths req now none = refuse 403
submit_validated paths req now (some source) =
    if paths.exists source
    then submit_to paths req now source (output_of paths source req.output_path)
    else refuse 404

unfoldable pub submit_job : Paths → Option SubmitRequest → ℕ → M Response
submit_job paths none now = refuse 400
submit_job paths (some req) now =
    if str_eq req.source_path ""
    then refuse 400
    else submit_validated paths req now (allowed paths req.source_path)
