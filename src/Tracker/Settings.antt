-- ===== src/Tracker/Settings.antt =====
-- tracker.go: the settings of single workers, the table worker_configs.
use dark_stream.Common.{
  Bool, not, List, [], ◌∷◌, ◌++◌, map, String, if◌then◌else◌, ltb, str_eq, filter, count,
}
use dark_stream.Models.{WorkerSettings}
use dark_stream.Tracker.{Store, no_rows, M, pure, fail, ◌>>=◌, query, exec}

abbrev pub settings_of : String → WorkerSettings → Bool
settings_of worker c = str_eq c.worker_id worker

abbrev pub first_settings : List WorkerSettings → M WorkerSettings
first_settings [] = fail no_rows
first_settings (c ∷ _) = pure c

unfoldable pub get_worker_config : String → M WorkerSettings
get_worker_config worker = do
  rows ← query λ s. filter (settings_of worker) s.settings
  first_settings rows

-- Every column but the key is overwritten.
abbrev pub upsert_settings : WorkerSettings → Store → Store
upsert_settings c s =
    if ltb 0 (count (settings_of c.worker_id) s.settings)
    then record s { settings = map (λ d. if settings_of c.worker_id d then c else d) s.settings }
    else record s { settings = s.settings ++ c ∷ [] }

unfoldable pub save_worker_config : WorkerSettings → M (Unit {0})
save_worker_config c = exec (upsert_settings c)

unfoldable pub delete_worker_config : String → M (Unit {0})
delete_worker_config worker =
    exec λ s. record s { settings = filter (λ c. not (settings_of worker c)) s.settings }

unfoldable pub has_worker_config : String → M Bool
has_worker_config worker = query λ s. ltb 0 (count (settings_of worker) s.settings)
