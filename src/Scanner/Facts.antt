-- ===== src/Scanner/Facts.antt =====
-- What is known of a file that is passed over, and of one of which `ProcessFile` makes a job.
use dark_stream.FilePath.{base_name, relative}
use dark_stream.Containment.{any_is, validate_path_within_base}
use dark_stream.Common.{◌⊎◌, ◌≡◌, ℕ, ◌||◌, true, some, false, [], List, ◌&&◌}
use dark_stream.Scanner.{
  too_large, too_small, extension, place_output, is_known, job_at, has_hash, found_in, is_hidden,
  found, Seen, Scanner, Disk, Processed,
}

-- Every checksum that was seen is still there.
abbrev pub Grows : Seen → Seen → Type 0
Grows seen later = (h : List ℕ) → has_hash h seen ≡ true → has_hash h later ≡ true

module _ (sc : Scanner) (disk : Disk) where
  -- The place of an output that is not its source.
  pub record IsPlaced (path out : List ℕ) : Type 0 where
    pub way : List ℕ
    pub leads : relative sc.root_path path ≡ some way
    pub placed : out ≡ place_output sc disk (extension sc disk path) way
    pub checked : List ℕ
    pub accepted : validate_path_within_base disk.cwd sc.output_base out ≡ some checked

  -- The file is not hidden, is a video of the right size, and both paths are accepted.
  pub record IsAdmitted (path out : List ℕ) : Type 0 where
    pub shown : is_hidden (base_name path) && sc.options.skip_hidden_files ≡ false
    pub video : any_is (extension sc disk path) sc.video_extensions ≡ true
    pub size : ℕ
    pub sized : disk.stat path ≡ some (false, size)
    pub fits : too_small sc.options size || too_large sc.options size ≡ false
    pub checked : List ℕ
    pub accepted : validate_path_within_base disk.cwd sc.root_path path ≡ some checked
    pub output : ((sc.options.replace_source ≡ true) × (out ≡ path)) ⊎ IsPlaced path out

  -- The checksum is new, and nobody knows it.
  abbrev pub IsFresh : List ℕ → Seen → Seen → Type 0
  IsFresh path seen later =
      sc.options.detect_duplicates ≡ true
      → (h : List ℕ) → disk.hash path ≡ some h
      → (has_hash h seen ≡ false)
        × (has_hash h later ≡ true)
        × (is_known sc.options.duplicate_checker h ≡ false)

  abbrev pub NothingFound : Seen → Processed × Seen → Type 0
  NothingFound seen r = (found_in r.0 ≡ []) × Grows seen r.1

  abbrev pub JobFound : List ℕ → Seen → Processed × Seen → Type 0
  JobFound path seen r =
      (out : List ℕ) × (r.0 ≡ found (job_at sc disk path out))
      × IsAdmitted path out
      × Grows seen r.1
      × IsFresh path seen r.1

  abbrev pub Explained : List ℕ → Seen → Processed × Seen → Type 0
  Explained path seen r = NothingFound seen r ⊎ JobFound path seen r
