-- ===== src/Scenarios/Transfers.antt =====
-- Downloads of a small file, with and without trouble.
use dark_stream.Containment.{validate_path_in_allowed_dirs, validate_path_within_base}
use dark_stream.FilePath.{
  absolute, split, relative, clean, render, join, names, walk, relative_names,
}
use dark_stream.Server.Verdicts.{code_of, TurnedDown}
use dark_stream.Server.Verdicts.Uploads.{upload_video_verdict, Stored}
use dark_stream.Server.Upload.{answer_upload, complete_upload, Submission, upload_video}
use dark_stream.Server.Video.Guarded.{download_video_guarded, IsAllowed}
use dark_stream.Tracker.{ok, statement}
use dark_stream.Tracker.Lookup.{get_job_by_id}
use dark_stream.Tracker.Jobs.{mark_job_completed}
use dark_stream.Scenarios.Handlers.{mixed-Keyed}
use dark_stream.Scenarios.Samples.{mixed}
use dark_stream.Client.Download.Resume.{download_source_video_sound}
use dark_stream.Client.Download.Progress.{download_source_video_completes}
use dark_stream.Text.{scan_number, scan_int, strip_prefix, sscanf}
use dark_stream.Server.{validate_job_id, post, get, codes}
use dark_stream.Server.Video.Honest.{send_file-IsHonest, IsHonest}
use dark_stream.Client.Retry.{is_permanent_http_error, succeeded, status_error, Failure}
use dark_stream.Client.Download.Rest.{IsPartial, Serves}
use dark_stream.Client.Download.{after_answer, download_attempt, download_source_video, Weather}
use dark_stream.Server.Video.{
  partial, download_video, serve_video_range, SourceFiles, send_file, Reply, parse_byte_range,
}
use dark_stream.Client.Download.Calm.{IsCalm}
use dark_stream.Common.{
  ◌⊎◌, ◌≡◌, ◌∷◌, ℕ, zero, true, suc, some, refl, none, length, inl, false, arith, [], Option, List,
  Bool, ◌<◌,
}

abbrev film : List ℕ
film = 10 ∷ 11 ∷ 12 ∷ 13 ∷ 14 ∷ []

send_file_middle : send_file true film (codes "bytes=1-3") ≡ partial 1 3 film
unfolding send_file serve_video_range parse_byte_range sscanf strip_prefix scan_int
send_file_middle = refl

send_file_end : send_file true film (codes "bytes=-2") ≡ partial 3 4 film
unfolding send_file serve_video_range parse_byte_range sscanf strip_prefix scan_int scan_number
send_file_end = refl

send_file-IsHonest_example : IsHonest film (send_file true film (codes "bytes=2-99"))
send_file-IsHonest_example = send_file-IsHonest true film (codes "bytes=2-99")

-- The first attempt breaks off after two bytes; the others go well.
abbrev breaking : Weather
breaking = record {
  prepares = true;
  answer = λ header. some (send_file true film header);
  opens = true;
  arrives = some 2;
  removes = true;
}

abbrev fine : Weather
fine = record breaking { arrives = none }

abbrev weather : ℕ → Weather
weather zero = breaking
weather (suc _) = fine

weather-Serves : (k : ℕ) → Serves film (weather k)
weather-Serves zero header r e = inl (true, cc)
weather-Serves (suc k) header r e = inl (true, cc)

fine-IsCalm : IsCalm film fine
fine-IsCalm = record {
  prepared = refl;
  answered = λ header. refl;
  opened = refl;
  complete = refl;
  removed = refl;
}

abbrev lasting : ℕ → Bool
lasting _ = false

broken_off :
    (e : Failure)
    → (download_attempt true breaking none).0 ≡ some e
    → is_permanent_http_error e ≡ false
unfolding download_attempt after_answer send_file
broken_off e h = ground arith

download_source_video_sound_example :
    IsPartial film (download_source_video true lasting weather none).state
    × ((download_source_video true lasting weather none).ending ≡ succeeded
        → (download_source_video true lasting weather none).state ≡ some film)
download_source_video_sound_example =
    download_source_video_sound film true lasting weather none (omega arith) weather-Serves tt

download_source_video_completes_example :
    ((download_source_video true lasting weather none).ending ≡ succeeded)
    × ((download_source_video true lasting weather none).state ≡ some film)
download_source_video_completes_example =
    download_source_video_completes film true lasting weather none (omega arith) tt (λ k. refl)
      weather-Serves broken_off fine-IsCalm fine-IsCalm

abbrev failing : ℕ → ℕ → Option Failure × ℕ
failing k n = (some (status_error 503), suc n)

abbrev library : SourceFiles
library = record {
  cwd = none;
  allowed_dirs = codes "/" ∷ [];
  read = λ p. some film;
  stats = true;
  seeks = true;
}

download_video_guarded_example :
    (r : Reply) × ((download_video library get "running" [] mixed).0 ≡ ok r)
    × (0 < length r.body → IsAllowed library "running" [] mixed r)
    × ((download_video library get "running" [] mixed).1.jobs ≡ mixed.jobs)
download_video_guarded_example = download_video_guarded library get "running" [] mixed

abbrev finished : Submission
finished = record {
  cwd = none;
  allowed_dirs = codes "/" ∷ [];
  parses = true;
  has_video = true;
  makes_dir = true;
  makes_temp = true;
  copied = none;
  closes = true;
  renames = true;
  video = film;
  checksum = some "abc";
}

upload_is_answered : code_of (upload_video finished post "running" 90 mixed).0 ≡ 200
unfolding upload_video complete_upload answer_upload validate_job_id get_job_by_id statement
    mark_job_completed validate_path_in_allowed_dirs validate_path_within_base absolute split
    relative clean render join names walk relative_names
upload_is_answered = refl

upload_video_verdict_example :
    Stored finished "running" 90 mixed (upload_video finished post "running" 90 mixed)
    ⊎ TurnedDown mixed (upload_video finished post "running" 90 mixed)
upload_video_verdict_example = upload_video_verdict finished post "running" 90 mixed mixed-Keyed
