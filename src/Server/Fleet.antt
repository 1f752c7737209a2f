-- ===== src/Server/Fleet.antt =====
-- http.go: what operators ask of workers, `PauseWorker`, `ResumeWorker`, `HandleWorkerAdmin`.
use dark_stream.Common.{[], ◌∷◌, String, if◌then◌else◌, str_eq}
use dark_stream.Models.{worker_status_online, worker_status_paused}
use dark_stream.Metrics.{remove_worker_metrics}
use dark_stream.Tracker.{Result, ok, err, M, ◌>>=◌, try}
use dark_stream.Tracker.Workers.{set_worker_status, delete_worker}
use dark_stream.Tracker.Settings.{delete_worker_config}
use dark_stream.Server.{Method, post, delete, empty, Response, refuse, answer, only}

abbrev pub answer_status : Result (Unit {0}) → M Response
answer_status (err _) = refuse 500
answer_status (ok _) = answer empty []

unfoldable pub set_status : String → String → M Response
set_status worker status =
    if str_eq worker ""
    then refuse 400
    else (do saved ← try (set_worker_status worker status); answer_status saved)

unfoldable pub pause_worker : Method → String → M Response
pause_worker method worker = only post method (set_status worker worker_status_paused)

unfoldable pub resume_worker : Method → String → M Response
resume_worker method worker = only post method (set_status worker worker_status_online)

-- An error of deleting the settings is passed over.
unfoldable pub after_delete : String → Result (Unit {0}) → M Response
after_delete worker (err _) = refuse 500
after_delete worker (ok _) = do
  _ ← try (delete_worker_config worker)
  answer empty (remove_worker_metrics worker ∷ [])

unfoldable pub handle_worker_admin : Method → String → M Response
handle_worker_admin method worker = only delete method (
    if str_eq worker ""
    then refuse 400
    else (do gone ← try (delete_worker worker); after_delete worker gone))
