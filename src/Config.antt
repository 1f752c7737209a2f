-- ===== src/Config.antt =====
-- video-converter-master/internal/config/manager.go: the settings that the web interface edits and the workers fetch.
-- JSON is a parameter: the text of a configuration, and what a text is read as.
pub mod Manager
pub mod Checks
pub mod Valid
pub mod Persisted
use dark_stream.Common.{
  ◌∷◌, ℤ, ℕ, ◌||◌, true, str_eq, pos, negsuc, leb, if◌then◌else◌, false, [], String, List, Bool,
  ◌==◌, ◌++◌, ◌&&◌,
}
use dark_stream.Server.{codes}
use dark_stream.Text.{is_digit}

pub record VideoConfig : Type 0 where
  pub resolution : String
  pub codec : String
  pub bitrate : String
  pub preset : String

pub record AudioConfig : Type 0 where
  pub codec : String
  pub bitrate : String

pub record OutputConfig : Type 0 where
  pub format : String

pub record WorkerConfig : Type 0 where
  pub concurrency : ℤ
  pub heartbeat_interval : ℤ
  pub job_check_interval : ℤ
  pub job_timeout : ℤ
  pub max_api_requests_per_min : ℤ
  pub download_timeout : ℤ
  pub upload_timeout : ℤ
  pub max_cache_size : ℤ
  pub cache_cleanup_age : ℤ
  pub bandwidth_limit : ℤ
  pub enable_resume_download : Bool
  pub use_vulkan : Bool
  pub ffmpeg_timeout : ℤ
  pub log_level : String
  pub log_format : String

pub record ActiveConfig : Type 0 where
  pub video : VideoConfig
  pub audio : AudioConfig
  pub output : OutputConfig
  pub worker : WorkerConfig
  pub updated_at : ℕ
  pub version : ℕ

pub record ConversionSettings : Type 0 where
  pub target_resolution : String
  pub codec : String
  pub bitrate : String
  pub preset : String
  pub audio_codec : String
  pub audio_bitrate : String
  pub output_format : String

pub record ValidationError : Type 0 where
  pub field : String
  pub message : String

abbrev pub starts_digit : List ℕ → Bool
starts_digit [] = false
starts_digit (c ∷ _) = is_digit c

abbrev pub after_digits : List ℕ → List ℕ
after_digits [] = []
after_digits (c ∷ s) = let rest = after_digits s in if is_digit c then rest else c ∷ s

abbrev pub is_end : List ℕ → Bool
is_end [] = true
is_end (_ ∷ _) = false

abbrev pub height : List ℕ → Bool
height [] = false
height (c ∷ s) = c == b'x' && starts_digit s && is_end (after_digits s)

-- `^\d+x\d+$`.
unfoldable pub matches_resolution : List ℕ → Bool
matches_resolution s = starts_digit s && height (after_digits s)

abbrev pub is_unit : ℕ → Bool
is_unit c = c == b'k' || c == b'K' || c == b'm' || c == b'M'

abbrev pub unit : List ℕ → Bool
unit [] = true
unit (c ∷ s) = is_unit c && is_end s

-- `^\d+[kKmM]?$`.
unfoldable pub matches_bitrate : List ℕ → Bool
matches_bitrate s = starts_digit s && unit (after_digits s)

abbrev pub one_of : List String → String → Bool
one_of [] s = false
one_of (t ∷ ts) s = str_eq s t || one_of ts s

abbrev pub valid_video_codecs : List String
valid_video_codecs = "h264" ∷ "h265" ∷ "hevc" ∷ "vp9" ∷ "av1" ∷ []

abbrev pub valid_presets : List String
valid_presets =
    "ultrafast" ∷ "superfast" ∷ "veryfast" ∷ "faster" ∷ "fast" ∷ "medium" ∷ "slow" ∷ "slower"
    ∷ "veryslow" ∷ "placebo" ∷ []

abbrev pub valid_audio_codecs : List String
valid_audio_codecs = "aac" ∷ "mp3" ∷ "opus" ∷ "vorbis" ∷ []

abbrev pub valid_formats : List String
valid_formats = "mp4" ∷ "mkv" ∷ "webm" ∷ "avi" ∷ []

abbrev pub valid_log_levels : List String
valid_log_levels = "debug" ∷ "info" ∷ "warn" ∷ "error" ∷ []

abbrev pub valid_log_formats : List String
valid_log_formats = "json" ∷ "text" ∷ []

-- An error unless the check is passed.
abbrev pub expect : Bool → String → String → List ValidationError
expect passed field message =
    if passed then [] else record { field = field; message = message } ∷ []

-- A setting may be left empty.
abbrev pub or_empty : (String → Bool) → String → Bool
or_empty test s = str_eq s "" || test s

abbrev pub at_least : ℕ → ℤ → Bool
at_least n (pos m) = leb n m
at_least n (negsuc _) = false

unfoldable pub validate_video_config : VideoConfig → List ValidationError
validate_video_config v =
    expect (or_empty (λ s. matches_resolution (codes s)) v.resolution) "video.resolution"
      "must be in format WIDTHxHEIGHT (e.g., 1920x1080)"
    ++ (expect (or_empty (one_of valid_video_codecs) v.codec) "video.codec"
          "must be one of: h264, h265, hevc, vp9, av1"
        ++ (expect (or_empty (λ s. matches_bitrate (codes s)) v.bitrate) "video.bitrate"
              "must be in format like 5M, 2000k, or 5000000"
            ++ expect (or_empty (one_of valid_presets) v.preset) "video.preset"
                "must be one of: ultrafast, superfast, veryfast, faster, fast, medium, slow, slower, veryslow, placebo"))

unfoldable pub validate_audio_config : AudioConfig → List ValidationError
validate_audio_config a =
    expect (or_empty (one_of valid_audio_codecs) a.codec) "audio.codec"
      "must be one of: aac, mp3, opus, vorbis"
    ++ expect (or_empty (λ s. matches_bitrate (codes s)) a.bitrate) "audio.bitrate"
        "must be in format like 128k, 192k, or 320k"

unfoldable pub validate_output_config : OutputConfig → List ValidationError
validate_output_config o =
    expect (or_empty (one_of valid_formats) o.format) "output.format"
      "must be one of: mp4, mkv, webm, avi"

unfoldable pub validate_worker_config : WorkerConfig → List ValidationError
validate_worker_config w =
    expect (at_least 1 w.concurrency) "worker.concurrency" "must be at least 1"
    ++ (expect (at_least 1 w.heartbeat_interval) "worker.heartbeat_interval"
          "must be at least 1 second"
        ++ (expect (at_least 1 w.job_check_interval) "worker.job_check_interval"
              "must be at least 1 second"
            ++ (expect (at_least 60 w.job_timeout) "worker.job_timeout"
                  "must be at least 60 seconds"
                ++ (expect (or_empty (one_of valid_log_levels) w.log_level) "worker.log_level"
                      "must be one of: debug, info, warn, error"
                    ++ expect (or_empty (one_of valid_log_formats) w.log_format) "worker.log_format"
                        "must be one of: json, text"))))

-- All that is wrong with a configuration.
unfoldable pub validate_config : ActiveConfig → List ValidationError
validate_config c =
    validate_video_config c.video
    ++ (validate_audio_config c.audio
        ++ (validate_output_config c.output ++ validate_worker_config c.worker))
