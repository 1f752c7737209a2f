-- ===== src/Config/Manager.antt =====
-- manager.go: the manager's state and operations. The file is what is at its path, if anything: a document of type `Doc`,
-- which JSON writes and reads.
use dark_stream.Config.{
  ActiveConfig, WorkerConfig, ConversionSettings, ValidationError, validate_config,
}
use dark_stream.Common.{
  ◌∷◌, ℕ, true, suc, str_eq, some, pos, none, if◌then◌else◌, false, [], Option, List, Bool, ◌&&◌,
  String,
}

pub record Manager (Doc : Type 0) : Type 0 where
  pub config : ActiveConfig
  pub file : Option Doc

-- What the file system does with a save: the temporary file is written, and it is renamed.
pub record Saving : Type 0 where
  pub writes : Bool
  pub renames : Bool

pub data Outcome : Type 0 where
  done not_marshalled not_saved : Outcome
  invalid : List ValidationError → Outcome

abbrev pub default_worker_config : WorkerConfig
default_worker_config = record {
  concurrency = pos 3;
  heartbeat_interval = pos 30;
  job_check_interval = pos 5;
  job_timeout = pos 7200;
  max_api_requests_per_min = pos 60;
  download_timeout = pos 1800;
  upload_timeout = pos 1800;
  max_cache_size = pos 10737418240;
  cache_cleanup_age = pos 86400;
  bandwidth_limit = pos 0;
  enable_resume_download = true;
  use_vulkan = true;
  ffmpeg_timeout = pos 7200;
  log_level = "info";
  log_format = "json";
}

abbrev pub default_format : String → String
default_format format = if str_eq format "" then "mp4" else format

abbrev pub worker_or_default : Option WorkerConfig → WorkerConfig
worker_or_default none = default_worker_config
worker_or_default (some w) = w

abbrev pub initial_config : ConversionSettings → Option WorkerConfig → ℕ → ActiveConfig
initial_config yaml workers now = record {
  video = record {
    resolution = yaml.target_resolution;
    codec = yaml.codec;
    bitrate = yaml.bitrate;
    preset = yaml.preset;
  };
  audio = record { codec = yaml.audio_codec; bitrate = yaml.audio_bitrate };
  output = record { format = default_format yaml.output_format };
  worker = worker_or_default workers;
  updated_at = now;
  version = 1;
}

unfoldable pub get_conversion_settings : {Doc : Type 0} → Manager Doc → ConversionSettings
get_conversion_settings m = record {
  target_resolution = m.config.video.resolution;
  codec = m.config.video.codec;
  bitrate = m.config.video.bitrate;
  preset = m.config.video.preset;
  audio_codec = m.config.audio.codec;
  audio_bitrate = m.config.audio.bitrate;
  output_format = m.config.output.format;
}

abbrev pub no_errors : List ValidationError → Bool
no_errors [] = true
no_errors (_ ∷ _) = false

-- The file is replaced as a whole, or not at all.
abbrev pub save_to_file_data : {Doc : Type 0} → Saving → Doc → Manager Doc → Outcome × Manager Doc
save_to_file_data io text m =
    if io.writes && io.renames then (done, record m { file = some text }) else (not_saved, m)

-- The configuration that an update leaves in memory.
abbrev pub stored : {Doc : Type 0} → ActiveConfig → ℕ → Manager Doc → ActiveConfig
stored c now m = record c { updated_at = now; version = suc m.config.version }

module _ {Doc : Type 0} (encode : ActiveConfig → Option Doc)
    (decode : Doc → Option ActiveConfig) where
  abbrev pub save_encoded : Saving → Option Doc → Manager Doc → Outcome × Manager Doc
  save_encoded io none m = (not_marshalled, m)
  save_encoded io (some text) m = save_to_file_data io text m

  unfoldable pub update : Saving → ℕ → ActiveConfig → Manager Doc → Outcome × Manager Doc
  update io now c m =
      if no_errors (validate_config c)
      then save_encoded io (encode (stored c now m)) (record m { config = stored c now m })
      else (invalid (validate_config c), m)

  abbrev pub load_from_file : Option Doc → Option ActiveConfig
  load_from_file none = none
  load_from_file (some text) = decode text

  abbrev pub if_saved : Outcome × Manager Doc → Option (Manager Doc)
  if_saved (done, m) = some m
  if_saved (_, _) = none

  abbrev pub start_with_defaults :
      Saving → ℕ → Option Doc → ConversionSettings → Option WorkerConfig → Option (Manager Doc)
  start_with_defaults io now file yaml workers =
      let c = initial_config yaml workers now in
      if_saved (save_encoded io (encode c) (record { config = c; file = file }))

  abbrev pub start_loaded :
      Saving
      → ℕ
      → Option Doc
      → ConversionSettings
      → Option WorkerConfig
      → Option ActiveConfig
      → Option (Manager Doc)
  start_loaded io now file yaml workers none = start_with_defaults io now file yaml workers
  start_loaded io now file yaml workers (some c) =
      if no_errors (validate_config c)
      then some (record { config = c; file = file })
      else start_with_defaults io now file yaml workers

  -- The manager of a new process, for what is at the path of the file; `none` if the first save fails.
  unfoldable pub new_manager :
      Saving → ℕ → Option Doc → ConversionSettings → Option WorkerConfig → Option (Manager Doc)
  new_manager io now file yaml workers = start_loaded io now file yaml workers (load_from_file file)

  -- A sequence of updates, each with what the file system does and the time; the outcomes, and the manager afterwards.
  unfoldable pub run : List (Saving × ℕ × ActiveConfig) → Manager Doc → List Outcome × Manager Doc
  run [] m = ([], m)
  run ((io, now, c) ∷ rest) m =
      let r = update io now c m in let more = run rest r.1 in (r.0 ∷ more.0, more.1)
