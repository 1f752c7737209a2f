-- ===== src/Scenarios/Samples.antt =====
-- Sample jobs, workers and stores.
use dark_stream.Common.{pos, ℕ, List, [], ◌∷◌, Option, none, some, String}
use dark_stream.Models.{Job, Status, pending, processing, completed, failed}
use dark_stream.Tracker.{Store}
use dark_stream.Tracker.Jobs.{no_metadata}

-- A row with these columns; the others are empty.
abbrev pub row : String → Status → ℕ → String → Option ℕ → Option ℕ → ℕ → Job
row id status priority worker started ended retries = record {
  id = id;
  source_path = "/in";
  output_path = "/out";
  status = status;
  priority = priority;
  worker_id = worker;
  started_at = started;
  completed_at = ended;
  error_message = "";
  retry_count = retries;
  max_retries = 3;
  created_at = 1;
  output_size = pos 0;
  source_checksum = "";
  output_checksum = "";
  metadata = no_metadata;
}

abbrev pub low : Job
low = row "low" pending 1 "" none none 0

abbrev pub urgent : Job
urgent = row "urgent" pending 9 "" none none 0

abbrev pub running : Job
running = row "running" processing 5 "w1" (some 10) none 0

abbrev pub broken : Job
broken = row "broken" failed 5 "w1" (some 10) (some 20) 0

abbrev pub store_of : List Job → Store
store_of jobs = record { jobs = jobs; workers = []; progress = []; settings = []; faults = [] }

abbrev pub two_pending : Store
two_pending = store_of (low ∷ urgent ∷ [])

abbrev pub mixed : Store
mixed = store_of (running ∷ broken ∷ low ∷ [])

abbrev pub ended : Job
ended = row "ended" completed 5 "w1" (some 10) (some 20) 0

abbrev pub closed : Store
closed = store_of (ended ∷ low ∷ [])
