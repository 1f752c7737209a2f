-- ===== src/Scanner.antt =====
-- video-converter-master/internal/scanner/scanner.go: the search for videos in a directory tree. Paths are code points.
pub mod Walk
pub mod Facts
pub mod Files
pub mod Distinct
pub mod Admitted
use dark_stream.Server.Submit.{submitted_job}
use mathlib.Core.Option
use dark_stream.Models.{Job}
use dark_stream.Server.{codes}
use dark_stream.Containment.{any_is, validate_path_within_base}
use dark_stream.Common.{
  pos, ◌/◌, ◌∷◌, ℤ, ℕ, ◌||◌, true, take, some, none, negsuc, map, ltb, length, if◌then◌else◌, false,
  drop, [], String, Option, List, Bool, ◌==◌, ◌-◌, ◌++◌, ◌&&◌,
}
use dark_stream.FilePath.{trim_suffix, relative, base_name, same_text, ext, join_paths}

-- A name that `ReadDir` lists: not a directory, a directory that cannot be read, or one that can.
mutual
  pub data Entry : Type 0 where
    file : List ℕ → Entry
    closed : List ℕ → Entry
    directory : List ℕ → Entries → Entry

  pub data Entries : Type 0 where
    end : Entries
    entry : Entry → Entries → Entries

-- A checksum that the external checker knows; `none` if asking it fails.
abbrev pub DuplicateChecker : Type 0
DuplicateChecker = List ℕ → Option Bool

pub record ScanOptions : Type 0 where
  pub max_depth : ℤ
  pub min_file_size : ℕ
  pub max_file_size : ℕ
  pub skip_hidden_files : Bool
  pub skip_hidden_dirs : Bool
  pub replace_source : Bool
  pub detect_duplicates : Bool
  pub duplicate_checker : Option DuplicateChecker

-- The paths of the files that were seen, by checksum.
abbrev pub Seen : Type 0
Seen = List (List ℕ × List ℕ)

pub record Scanner : Type 0 where
  pub root_path : List ℕ
  pub video_extensions : List (List ℕ)
  pub output_base : List ℕ
  pub options : ScanOptions
  pub seen_hashes : Seen

-- What the scan asks of the system while it runs: the working directory, whether a path is a directory and its size,
-- the SHA-256 of a file, which is taken twice, for the search for duplicates and for the job, and may differ, lower case of a text, and the identifier of a path.
pub record Disk : Type 0 where
  pub cwd : Option (List ℕ)
  pub stat : List ℕ → Option (Bool × ℕ)
  pub hash : List ℕ → Option (List ℕ)
  pub checksum : List ℕ → Option (List ℕ)
  pub lower : List ℕ → List ℕ
  pub id_of : List ℕ → List ℕ

pub record ScannedJob : Type 0 where
  pub id : List ℕ
  pub source_path : List ℕ
  pub output_path : List ℕ
  pub source_checksum : List ℕ

-- The job that `ProcessFile` fills in, with `text` for the text of code points.
abbrev pub job_of : (List ℕ → String) → ℕ → ScannedJob → Job
job_of text now j =
    record (submitted_job (text j.id) (text j.source_path) (text j.output_path) 5 now) {
      source_checksum = text j.source_checksum;
    }

unfoldable pub new_scanner : Disk → List ℕ → List (List ℕ) → List ℕ → Scanner
new_scanner disk root extensions output = record {
  root_path = root;
  video_extensions = map disk.lower extensions;
  output_base = output;
  options = record {
    max_depth = negsuc 0;
    min_file_size = 0;
    max_file_size = 0;
    skip_hidden_files = true;
    skip_hidden_dirs = true;
    replace_source = false;
    detect_duplicates = false;
    duplicate_checker = none;
  };
  seen_hashes = [];
}

abbrev pub forget : ScanOptions → Seen → Seen
forget options seen = if options.detect_duplicates then [] else seen

unfoldable pub set_options : ScanOptions → Scanner → Scanner
set_options options sc = record sc {
  options = options;
  seen_hashes = forget options sc.seen_hashes;
}

-- A file that is passed over, one that cannot be used, and a job.
pub data Processed : Type 0 where
  skipped failed : Processed
  found : ScannedJob → Processed

abbrev pub found_in : Processed → List ScannedJob
found_in skipped = []
found_in failed = []
found_in (found j) = j ∷ []

abbrev pub is_hidden : List ℕ → Bool
is_hidden [] = false
is_hidden (c ∷ _) = c == b'.'

abbrev pub too_small : ScanOptions → ℕ → Bool
too_small options size = ltb 0 options.min_file_size && ltb size options.min_file_size

abbrev pub too_large : ScanOptions → ℕ → Bool
too_large options size = ltb 0 options.max_file_size && ltb options.max_file_size size

abbrev pub has_hash : List ℕ → Seen → Bool
has_hash h [] = false
has_hash h ((k, _) ∷ seen) = same_text k h || has_hash h seen

abbrev or_false : Option Bool → Bool
or_false none = false
or_false (some b) = b

-- The answer of the external checker, if there is one.
abbrev pub is_known : Option DuplicateChecker → List ℕ → Bool
is_known none h = false
is_known (some check) h = or_false (check h)

abbrev pub record_hash : ScanOptions → List ℕ → Option (List ℕ) → Seen → Bool × Seen
record_hash options path none seen = (false, seen)
record_hash options path (some h) seen =
    if has_hash h seen
    then (true, seen)
    else (is_known options.duplicate_checker h, (h, path) ∷ seen)

unfoldable pub is_duplicate : Disk → ScanOptions → List ℕ → Seen → Bool × Seen
is_duplicate disk options path seen = record_hash options path (disk.hash path) seen

module _ (sc : Scanner) (disk : Disk) where
  abbrev pub extension : List ℕ → List ℕ
  extension path = disk.lower (ext (base_name path))

  -- The place of the output, for a source relative to the root.
  abbrev pub place_output : List ℕ → List ℕ → List ℕ
  place_output suffix path = join_paths sc.output_base (trim_suffix path suffix ++ codes ".mp4")

  unfoldable pub output_path_of : List ℕ → Option (List ℕ)
  output_path_of path =
      if sc.options.replace_source
      then some path
      else Option.map (place_output (extension path)) (relative sc.root_path path)

  abbrev pub checksum_of : Option (List ℕ) → List ℕ
  checksum_of none = []
  checksum_of (some h) = h

  abbrev pub job_at : List ℕ → List ℕ → ScannedJob
  job_at path output = record {
    id = disk.id_of path;
    source_path = path;
    output_path = output;
    source_checksum = checksum_of (disk.checksum path);
  }

  abbrev pub check_output : List ℕ → List ℕ → Option (List ℕ) → Processed
  check_output path output (some _) = found (job_at path output)
  check_output path output none = failed

  abbrev pub check_source : List ℕ → List ℕ → Option (List ℕ) → Processed
  check_source path output none = failed
  check_source path output (some _) =
      if sc.options.replace_source
      then found (job_at path output)
      else check_output path output (validate_path_within_base disk.cwd sc.output_base output)

  abbrev pub finish : List ℕ → Option (List ℕ) → Processed
  finish path none = failed
  finish path (some output) =
      check_source path output (validate_path_within_base disk.cwd sc.root_path path)

  abbrev pub after_duplicates : List ℕ → Bool × Seen → Processed × Seen
  after_duplicates path (duplicate, seen) =
      if duplicate then (skipped, seen) else (finish path (output_path_of path), seen)

  abbrev pub process_stat : List ℕ → Option (Bool × ℕ) → Seen → Processed × Seen
  process_stat path none seen = (failed, seen)
  process_stat path (some (true, _)) seen = (skipped, seen)
  process_stat path (some (false, size)) seen =
      if too_small sc.options size || too_large sc.options size
      then (skipped, seen)
      else after_duplicates path (
          if sc.options.detect_duplicates
          then is_duplicate disk sc.options path seen
          else (false, seen))

  unfoldable pub process_file : List ℕ → Seen → Processed × Seen
  process_file path seen =
      if is_hidden (base_name path) && sc.options.skip_hidden_files
      then (skipped, seen)
      else if any_is (extension path) sc.video_extensions
      then process_stat path (disk.stat path) seen
      else (skipped, seen)
