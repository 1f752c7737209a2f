-- ===== src/Metrics.antt =====
-- What the master does outside the database: its Prometheus metrics
-- (video-converter-master/internal/server/http.go and internal/metrics) and its webhooks.
use dark_stream.Common.{ℕ, List, [], ◌∷◌, Option, String}
use dark_stream.Models.{Job}
use dark_stream.Tracker.{Result, ok, err, M, pure, ◌>>=◌, try}
use dark_stream.Tracker.Lookup.{count_pending_jobs}

-- A duration runs from the start of the job, where it has one. `write_file` puts a file in place, in one step.
pub data Effect : Type 0 where
  notify : String → Job → Effect
  record_retry : String → Effect
  record_started : ℕ → Effect
  record_completed : ℕ → Effect
  record_failed : Option ℕ → Effect
  record_finished : Effect
  set_queue_depth : ℕ → Effect
  set_worker_counts : ℕ → ℕ → Effect
  record_heartbeat : String → String → Effect
  remove_worker_metrics : String → Effect
  record_bytes_uploaded : ℕ → Effect
  write_file : List ℕ → List ℕ → Effect

-- `updateQueueDepthMetric`: the gauge is set if the count could be read.
abbrev pub depth_effect : Result ℕ → List Effect
depth_effect (ok n) = set_queue_depth n ∷ []
depth_effect (err _) = []

unfoldable pub refresh_queue_depth : M (List Effect)
refresh_queue_depth = do n ← try count_pending_jobs; pure (depth_effect n)
