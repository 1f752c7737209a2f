-- ===== src/Server/Video.antt =====
-- http.go: how the source of a job is sent to the worker that converts it, in whole or in part:
-- `parseByteRange`, `serveVideoRange` and `DownloadVideo`. A file is the list of its bytes, and what arrives
-- of an answer that breaks off is for the client's side to say.
pub mod Ranges
pub mod Honest
pub mod Guarded
use dark_stream.Containment.{validate_path_in_allowed_dirs}
use dark_stream.Tracker.Lookup.{get_job_by_id}
use dark_stream.Models.{processing, status_eq, Job}
use dark_stream.Tracker.{pure, try, ◌>>=◌, ok, err, M, Result}
use dark_stream.Server.{validate_job_id, get, method_eq, codes, Method}
use dark_stream.Common.{
  ◌/◌, ◌∷◌, ℤ, ℕ, ◌||◌, zero, take, suc, some, pos, none, negsuc, ltb, length, leb, if◌then◌else◌,
  drop, ◌^◌, [], String, Option, List, Bool, ◌-◌, ◌+◌,
}
use mathlib.Core.Option
use dark_stream.Text.{Verb, literal, decimal, sscanf}

-- Two's complement, for a number below 2 ^ 64.
abbrev pub wrap_int64 : ℕ → ℤ
wrap_int64 n = if ltb n (2 ^ 63) then pos n else negsuc (2 ^ 64 - n - 1)

-- `fileSize - end` in an int64.
abbrev pub from_end : ℕ → ℤ → ℤ
from_end size (pos n) = if leb n size then pos (size - n) else negsuc (n - size - 1)
from_end size (negsuc n) = wrap_int64 (size + suc n)

abbrev pub at_least_zero : ℤ → ℤ
at_least_zero (pos n) = pos n
at_least_zero (negsuc _) = pos 0

-- `fileSize - 1`.
abbrev pub last_byte : ℕ → ℤ
last_byte zero = negsuc 0
last_byte (suc n) = pos n

-- bytes=-suffix.
abbrev pub suffix_range : ℕ → List ℤ → Option (ℤ × ℤ)
suffix_range size (n ∷ []) = some (at_least_zero (from_end size n), last_byte size)
suffix_range size _ = none

-- bytes=start-.
abbrev pub open_range : ℕ → List ℤ → Option (ℤ × ℤ) → Option (ℤ × ℤ)
open_range size (pos start ∷ []) other = some (pos start, last_byte size)
open_range size _ other = other

-- bytes=start-end.
abbrev pub closed_range : List ℤ → Option (ℤ × ℤ) → Option (ℤ × ℤ)
closed_range (start ∷ end ∷ []) other = some (start, end)
closed_range _ other = other

-- The first and the last byte that a Range header asks for, if it has one of the three forms.
unfoldable pub parse_byte_range : List ℕ → ℕ → Option (ℤ × ℤ)
parse_byte_range header size =
    closed_range
      (sscanf (literal (codes "bytes=") ∷ decimal ∷ literal (codes "-") ∷ decimal ∷ []) header)
      (open_range size
        (sscanf (literal (codes "bytes=") ∷ decimal ∷ literal (codes "-") ∷ []) header)
        (suffix_range size (sscanf (literal (codes "bytes=-") ∷ decimal ∷ []) header)))

-- An answer that carries bytes: the status, the declared length, the part of the file that it is
-- (first byte, last byte, size), and the body.
pub record Reply : Type 0 where
  pub code : ℕ
  pub content_length : Option ℕ
  pub content_range : Option (ℕ × ℕ × ℕ)
  pub body : List ℕ

abbrev pub refused : ℕ → Reply
refused n = record { code = n; content_length = none; content_range = none; body = [] }

-- The bytes from `start` to `end`, both included.
abbrev pub slice : ℕ → ℕ → List ℕ → List ℕ
slice start end file = take (end - start + 1) (drop start file)

abbrev pub partial : ℕ → ℕ → List ℕ → Reply
partial start end file = record {
  code = 206;
  content_length = some (end - start + 1);
  content_range = some (start, end, length file);
  body = slice start end file;
}

-- The check of the range, and the answer. `seeks` says whether `Seek` succeeds.
abbrev pub serve_range : Bool → List ℕ → ℤ × ℤ → Reply
serve_range seeks file (pos start, pos end) =
    if leb (length file) start || ltb end start || leb (length file) end
    then refused 416
    else if seeks
    then partial start end file
    else refused 500
serve_range seeks file _ = refused 416

-- `none` where the whole file is to be sent.
unfoldable pub serve_video_range : Bool → List ℕ → List ℕ → Option Reply
serve_video_range seeks file header =
    Option.map (serve_range seeks file) (parse_byte_range header (length file))

abbrev pub whole : List ℕ → Reply
whole file = record {
  code = 200;
  content_length = some (length file);
  content_range = none;
  body = file;
}

abbrev pub or_whole : List ℕ → Option Reply → Reply
or_whole file none = whole file
or_whole file (some r) = r

-- A header that is empty counts as none.
unfoldable pub send_file : Bool → List ℕ → List ℕ → Reply
send_file seeks file [] = whole file
send_file seeks file (c ∷ cs) = or_whole file (serve_video_range seeks file (c ∷ cs))

-- What `DownloadVideo` asks of the file system: the working directory, the directories that paths
-- may lie in, the content of a file that can be opened, and whether `Stat` and `Seek` succeed.
pub record SourceFiles : Type 0 where
  pub cwd : Option (List ℕ)
  pub allowed_dirs : List (List ℕ)
  pub read : List ℕ → Option (List ℕ)
  pub stats : Bool
  pub seeks : Bool

-- The path that the source of a job is read from.
abbrev pub source_of : SourceFiles → Job → Option (List ℕ)
source_of fs j = validate_path_in_allowed_dirs fs.cwd fs.allowed_dirs (codes j.source_path)

abbrev pub send_opened : SourceFiles → List ℕ → Option (List ℕ) → Reply
send_opened fs header none = refused 404
send_opened fs header (some file) = if fs.stats then send_file fs.seeks file header else refused 500

abbrev pub send_validated : SourceFiles → List ℕ → Option (List ℕ) → Reply
send_validated fs header none = refused 403
send_validated fs header (some path) = send_opened fs header (fs.read path)

-- Only a job that is being processed has its source sent.
abbrev pub send_source : SourceFiles → List ℕ → Result Job → Reply
send_source fs header (err _) = refused 404
send_source fs header (ok j) =
    if status_eq j.status processing then send_validated fs header (source_of fs j) else refused 400

unfoldable pub download_video : SourceFiles → Method → String → List ℕ → M Reply
download_video fs method id header =
    if method_eq method get
    then if validate_job_id id
      then (do fetched ← try (get_job_by_id id); pure (send_source fs header fetched))
      else pure (refused 400)
    else pure (refused 405)
