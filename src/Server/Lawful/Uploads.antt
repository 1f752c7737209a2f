-- ===== src/Server/Lawful/Uploads.antt =====
-- An upload completes the job that it is for, and changes no other.
use dark_stream.Tracker.{ok, err, Result}
use dark_stream.Server.Lawful.{
  refuse-Respects, answer-Respects, only-Respects, when-Respects, fetch-Respects,
}
use dark_stream.Lifecycle.Statements.{mark_job_completed-Lawful}
use dark_stream.Tracker.Respects.{if-Respects, pure-Respects, try_bind-Respects}
use dark_stream.Models.{processing, status_eq, Job}
use dark_stream.Lifecycle.Lawful.{edges, Lawful}
use dark_stream.Metrics.{Effect}
use dark_stream.Lifecycle.{Edge, Powers}
use dark_stream.Server.Upload.{
  destination, checksum_or_empty, upload_fetched, store_upload, upload_validated, place_copy,
  complete_upload, Submission, upload_video, answer_upload,
}
use dark_stream.Common.{ℕ, true, some, pos, none, length, false, String, Option, List, Bool}
use dark_stream.Server.{Method, post, validate_job_id, file_size}

answer_upload-Lawful :
    {powers : Powers}
    → (effects : List Effect) (size : ℕ) (r : Result Bool)
    → Lawful (Edge powers) (answer_upload effects size r)
unfolding answer_upload
answer_upload-Lawful effects size (err e) = pure-Respects edges _
answer_upload-Lawful effects size (ok false) = pure-Respects edges _
answer_upload-Lawful effects size (ok true) = answer-Respects edges (file_size size) effects

module _ {powers : Powers} (u : Submission) (now : ℕ) where
  complete_upload-Lawful :
      (path : List ℕ) (j : Job) → Lawful (Edge powers) (complete_upload u now path j)
  unfolding complete_upload
  complete_upload-Lawful path j =
      try_bind-Respects edges _ _
        (mark_job_completed-Lawful j.id j.worker_id (pos (length u.video))
          (checksum_or_empty u.checksum) j.started_at now)
        (answer_upload-Lawful _ _)

  place_copy-Lawful :
      (path : List ℕ) (j : Job) (o : Option ℕ) → Lawful (Edge powers) (place_copy u now path j o)
  place_copy-Lawful path j (some n) = pure-Respects edges _
  place_copy-Lawful path j none =
      if-Respects edges u.closes _ _
        (if-Respects edges u.renames _ _ (complete_upload-Lawful path j) (pure-Respects edges _))
        (pure-Respects edges _)

  store_upload-Lawful : (path : List ℕ) (j : Job) → Lawful (Edge powers) (store_upload u now path j)
  store_upload-Lawful path j = when-Respects edges u.parses _ 400 (
      when-Respects edges u.has_video _ 400 (
        when-Respects edges u.makes_dir _ 500
          (when-Respects edges u.makes_temp _ 500 (place_copy-Lawful path j u.copied))))

  upload_validated-Lawful :
      (j : Job) (o : Option (List ℕ)) → Lawful (Edge powers) (upload_validated u now j o)
  upload_validated-Lawful j none = refuse-Respects edges 403
  upload_validated-Lawful j (some path) = store_upload-Lawful path j

  upload_fetched-Lawful : (r : Result Job) → Lawful (Edge powers) (upload_fetched u now r)
  upload_fetched-Lawful (err e) = refuse-Respects edges 404
  upload_fetched-Lawful (ok j) =
      when-Respects edges (status_eq j.status processing) _ 400
        (upload_validated-Lawful j (destination u j))

pub upload_video-Lawful :
    {powers : Powers}
    → (u : Submission) (method : Method) (id : String) (now : ℕ)
    → Lawful (Edge powers) (upload_video u method id now)
unfolding upload_video
upload_video-Lawful u method id now = only-Respects edges post method _ (
    when-Respects edges (validate_job_id id) _ 400
      (fetch-Respects edges id _ (upload_fetched-Lawful u now)))
