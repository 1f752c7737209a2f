-- ===== src/Scanner/Walk.antt =====
-- scanner.go: `scanWithDepth` and `ScanDirectory`, over the listing of the tree.
use dark_stream.FilePath.{join_paths}
use dark_stream.Scanner.{
  end, entry, directory, closed, is_hidden, file, forget, found_in, Entries, Entry, process_file,
  Processed, Disk, Seen, Scanner, ScannedJob, ScanOptions,
}
use dark_stream.Common.{
  ℤ, ℕ, suc, some, pos, none, negsuc, ltb, inr, inl, if◌then◌else◌, false, [], Option, List,
  Bool-cases, Bool, ◌++◌, ◌&&◌,
}

-- The jobs so far, and the checksums.
pub record Scan : Type 0 where
  pub jobs : List ScannedJob
  pub seen : Seen

abbrev pub too_deep : ScanOptions → ℕ → Bool
too_deep options depth = deeper options.max_depth depth
  where
    deeper : ℤ → ℕ → Bool
    deeper (pos n) depth = ltb n depth
    deeper (negsuc _) depth = false

module _ (sc : Scanner) (disk : Disk) where
  abbrev pub add_found : Scan → Processed × Seen → Scan
  add_found st (p, seen) = record { jobs = st.jobs ++ found_in p; seen = seen }

  abbrev pub add_file : List ℕ → Scan → Scan
  add_file path st = add_found st (process_file sc disk path st.seen)

  unfoldable mutual
    pub scan_entry : Entry → List ℕ → ℕ → Scan → Scan
    scan_entry (file name) path depth st =
        if is_hidden name && sc.options.skip_hidden_files
        then st
        else add_file (join_paths path name) st
    scan_entry (closed name) path depth st = st
    scan_entry (directory name es) path depth st =
        let inside = scan_entries es (join_paths path name) (suc depth) st in
        if is_hidden name && sc.options.skip_hidden_dirs
        then st
        else if too_deep sc.options (suc depth)
        then st
        else inside

    pub scan_entries : Entries → List ℕ → ℕ → Scan → Scan
    scan_entries end path depth st = st
    scan_entries (entry e es) path depth st =
        scan_entries es path depth (scan_entry e path depth st)

  -- `none` if the root cannot be read.
  abbrev pub scan_with_depth : Option Entries → List ℕ → ℕ → Scan → Scan
  scan_with_depth none path depth st = st
  scan_with_depth (some es) path depth st =
      if too_deep sc.options depth then st else scan_entries es path depth st

  unfoldable pub scan_directory : Option Entries → Scan
  scan_directory root =
      scan_with_depth root sc.root_path 0
        (record { jobs = []; seen = forget sc.options sc.seen_hashes })

  -- What is kept by every file of a directory that fits holds after the walk.
  module _ {κ} (Fits : List ℕ → Type 0)
      (inner : (path name : List ℕ) → Fits path → Fits (join_paths path name)) (P : Scan → Type κ)
      (keeps : (path name : List ℕ) (st : Scan)
        → Fits path
        → P st
        → P (add_file (join_paths path name) st)) where
    mutual
      unfolding scan_entry scan_entries

      scan_entry-keeps :
          (e : Entry) (path : List ℕ) (depth : ℕ) (st : Scan)
          → Fits path
          → P st
          → P (scan_entry e path depth st)
      scan_entry-keeps (file name) path depth st h k =
          elim (Bool-cases (is_hidden name && sc.options.skip_hidden_files)) [
            | inl e ↦ rw e k
            | inr e ↦ rw e (keeps path name st h k)
          ]
      scan_entry-keeps (closed name) path depth st h k = k
      scan_entry-keeps (directory name es) path depth st h k =
          elim (Bool-cases (is_hidden name && sc.options.skip_hidden_dirs)) [
            | inl e ↦ rw e k
            | inr e ↦ elim (Bool-cases (too_deep sc.options (suc depth))) [
              | inl d ↦ rw (e, d) k
              | inr d ↦
                  rw (e, d)
                    (scan_entries-keeps es (join_paths path name) (suc depth) st (inner path name h)
                      k)
            ]
          ]

      scan_entries-keeps :
          (es : Entries) (path : List ℕ) (depth : ℕ) (st : Scan)
          → Fits path
          → P st
          → P (scan_entries es path depth st)
      scan_entries-keeps end path depth st h k = k
      scan_entries-keeps (entry e es) path depth st h k =
          scan_entries-keeps es path depth (scan_entry e path depth st) h
            (scan_entry-keeps e path depth st h k)

    pub scan_directory-keeps :
        (root : Option Entries)
        → Fits sc.root_path
        → P (record { jobs = []; seen = forget sc.options sc.seen_hashes })
        → P (scan_directory root)
    unfolding scan_directory
    scan_directory-keeps none h k = k
    scan_directory-keeps (some es) h k = elim (Bool-cases (too_deep sc.options 0)) [
      | inl e ↦ rw e k
      | inr e ↦ rw e (scan_entries-keeps es sc.root_path 0 _ h k)
    ]
