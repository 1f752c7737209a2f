-- ===== src/Server/Upload.antt =====
-- http.go: `UploadVideo`, the converted file of a job. It is written beside its place and renamed, and only then
-- is the job marked completed.
use dark_stream.Containment.{validate_path_in_allowed_dirs}
use dark_stream.Server.{
  codes, file_size, answer, validate_job_id, post, empty, only, refuse, Response, Method,
}
use dark_stream.Tracker.Lookup.{get_job_by_id}
use dark_stream.Tracker.Jobs.{mark_job_completed}
use dark_stream.Models.{processing, status_eq, Job}
use dark_stream.Metrics.{write_file, record_bytes_uploaded, Effect}
use dark_stream.Tracker.{ok, err, try, pure, M, Result, ◌>>=◌}
use dark_stream.Common.{
  ◌∷◌, ℕ, pos, true, some, none, length, if◌then◌else◌, false, [], String, Option, List, Bool, ◌==◌,
  ◌++◌,
}

-- What the handler asks of the request and of the file system: the working directory, the directories that
-- paths may lie in, whether each step works, the bytes of the form's file, how many of them are copied before an error, and
-- the checksum of the file in its place.
pub record Submission : Type 0 where
  pub cwd : Option (List ℕ)
  pub allowed_dirs : List (List ℕ)
  pub parses : Bool
  pub has_video : Bool
  pub makes_dir : Bool
  pub makes_temp : Bool
  pub copied : Option ℕ
  pub closes : Bool
  pub renames : Bool
  pub video : List ℕ
  pub checksum : Option String

-- The path that the file is put at.
abbrev pub destination : Submission → Job → Option (List ℕ)
destination u j = validate_path_in_allowed_dirs u.cwd u.allowed_dirs (codes j.output_path)

abbrev pub refuse_with : ℕ → List Effect → M Response
refuse_with n effects = pure (record { code = n; body = empty; effects = effects })

abbrev pub uploaded_bytes : ℕ → List Effect
uploaded_bytes n = if n == 0 then [] else record_bytes_uploaded n ∷ []

abbrev pub checksum_or_empty : Option String → String
checksum_or_empty none = ""
checksum_or_empty (some sum) = sum

unfoldable pub answer_upload : List Effect → ℕ → Result Bool → M Response
answer_upload effects size (err _) = refuse_with 500 effects
answer_upload effects size (ok false) = refuse_with 409 effects
answer_upload effects size (ok true) = answer (file_size size) effects

-- The file is in its place.
unfoldable pub complete_upload : Submission → ℕ → List ℕ → Job → M Response
complete_upload u now path j = do
  updated ← try (
      mark_job_completed j.id j.worker_id (pos (length u.video)) (checksum_or_empty u.checksum)
        j.started_at now)
  answer_upload (uploaded_bytes (length u.video) ++ write_file path u.video ∷ []) (length u.video)
      updated

abbrev pub place_copy : Submission → ℕ → List ℕ → Job → Option ℕ → M Response
place_copy u now path j (some n) = refuse_with 500 (uploaded_bytes n)
place_copy u now path j none =
    if u.closes
    then if u.renames
      then complete_upload u now path j
      else refuse_with 500 (uploaded_bytes (length u.video))
    else refuse_with 500 (uploaded_bytes (length u.video))

abbrev pub store_upload : Submission → ℕ → List ℕ → Job → M Response
store_upload u now path j =
    if u.parses
    then if u.has_video
      then if u.makes_dir
        then if u.makes_temp then place_copy u now path j u.copied else refuse 500
        else refuse 500
      else refuse 400
    else refuse 400

abbrev pub upload_validated : Submission → ℕ → Job → Option (List ℕ) → M Response
upload_validated u now j none = refuse 403
upload_validated u now j (some path) = store_upload u now path j

abbrev pub upload_fetched : Submission → ℕ → Result Job → M Response
upload_fetched u now (err _) = refuse 404
upload_fetched u now (ok j) =
    if status_eq j.status processing then upload_validated u now j (destination u j) else refuse 400

unfoldable pub upload_video : Submission → Method → String → ℕ → M Response
upload_video u method id now = only post method (
    if validate_job_id id
    then (do fetched ← try (get_job_by_id id); upload_fetched u now fetched)
    else refuse 400)
