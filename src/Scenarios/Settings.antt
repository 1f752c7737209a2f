-- ===== src/Scenarios/Settings.antt =====
-- Updates of a small configuration. Here JSON writes a configuration as it is.
use dark_stream.Server.Settings.Saved.{settings_saved, shown}
use dark_stream.Tracker.{ok}
use dark_stream.Scenarios.Samples.{mixed}
use dark_stream.Models.{WorkerSettings}
use dark_stream.Server.Settings.{named, handle_worker_settings}
use dark_stream.Server.{get, post, authenticate_request, Credentials}
use dark_stream.Config.Valid.{validate_config_iff, IsValidConfig}
use dark_stream.Config.Persisted.{run_versions, is_taken, update-new_manager}
use dark_stream.Common.{
  ◌↔◌, ◌≡◌, ◌∷◌, pos, ℕ, true, sym, some, refl, none, false, count, [], Option, List, ◌+◌,
}
use dark_stream.Config.{
  matches_bitrate, matches_resolution, validate_worker_config, validate_output_config,
  validate_audio_config, validate_video_config, ActiveConfig, ConversionSettings, validate_config,
}
use dark_stream.Config.Manager.{Manager, Saving, done, update, new_manager, run, initial_config}

abbrev yaml : ConversionSettings
yaml = record {
  target_resolution = "1920x1080";
  codec = "h264";
  bitrate = "5M";
  preset = "fast";
  audio_codec = "aac";
  audio_bitrate = "128k";
  output_format = "mp4";
}

abbrev config : ActiveConfig
config = initial_config yaml none 3

abbrev kept : ActiveConfig → Option ActiveConfig
kept c = some c

abbrev manager : Manager ActiveConfig
manager = record { config = config; file = none }

abbrev smooth : Saving
smooth = record { writes = true; renames = true }

-- The new process cannot save anything.
abbrev full : Saving
full = record { writes = false; renames = true }

abbrev wrong : ActiveConfig
wrong = record config { output = record { format = "gif" } }

config_is_valid : validate_config config ≡ []
unfolding validate_config validate_video_config validate_audio_config validate_output_config
    validate_worker_config matches_resolution matches_bitrate
config_is_valid = refl

saved : (update kept kept smooth 9 config manager).0 ≡ done
unfolding update validate_config validate_video_config validate_audio_config validate_output_config
    validate_worker_config matches_resolution matches_bitrate
saved = refl

update-new_manager_example :
    new_manager kept kept full 20 (update kept kept smooth 9 config manager).1.file yaml none
    ≡ some (update kept kept smooth 9 config manager).1
update-new_manager_example =
    update-new_manager kept kept (λ c text e. sym e) smooth 9 config manager saved full 20 yaml none

abbrev updates : List (Saving × ℕ × ActiveConfig)
updates = (smooth, 9, config) ∷ (smooth, 12, wrong) ∷ (full, 15, config) ∷ []

run_versions_example :
    (validate_config (run kept kept updates manager).1.config ≡ [])
    × ((run kept kept updates manager).1.config.version
        ≡ 1 + count is_taken (run kept kept updates manager).0)
run_versions_example = run_versions kept kept updates manager config_is_valid

validate_config_iff_example : (validate_config wrong ≡ []) ↔ IsValidConfig wrong
validate_config_iff_example = validate_config_iff wrong

abbrev one_loop : WorkerSettings
one_loop = record {
  worker_id = "somebody";
  concurrency = pos 1;
  heartbeat_interval = pos 30;
  job_check_interval = pos 5;
  job_timeout = pos 600;
  max_api_requests_per_min = pos 60;
  download_timeout = pos 60;
  upload_timeout = pos 60;
  max_cache_size = pos 0;
  cache_cleanup_age = pos 0;
  bandwidth_limit = pos 0;
  enable_resume_download = true;
  use_vulkan = false;
  ffmpeg_timeout = pos 600;
  log_level = "info";
  log_format = "json";
}

abbrev two_loops : WorkerSettings
two_loops = record one_loop { concurrency = pos 2 }

abbrev key : Credentials
key = record { authorization = "Bearer k"; api_key = "" }

key_is_right : authenticate_request "k" key ≡ true
unfolding authenticate_request
key_is_right = refl

settings_saved_example :
    ((handle_worker_settings "k" key post two_loops "w1" (some one_loop) mixed).0
      ≡ ok (shown (named "w1" one_loop)))
    × ((handle_worker_settings "k" key get two_loops "w1" none
          (handle_worker_settings "k" key post two_loops "w1" (some one_loop) mixed).1).0
        ≡ ok (shown (named "w1" one_loop)))
settings_saved_example =
    settings_saved "k" key key two_loops one_loop "w1" mixed refl refl key_is_right key_is_right
      refl
