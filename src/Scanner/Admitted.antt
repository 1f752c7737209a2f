-- ===== src/Scanner/Admitted.antt =====
-- The jobs of a scan stay in the directories that it was given.
use dark_stream.Containment.Stable.{accepted_itself}
use dark_stream.Containment.{validate_path_within_base}
use dark_stream.FilePath.{join_paths, is_abs}
use dark_stream.Scanner.Files.{process_file-Explained}
use dark_stream.Scanner.Facts.{IsPlaced, IsAdmitted}
use dark_stream.Containment.Within.{validate_path_within_base-IsWithin, IsWithin}
use dark_stream.FilePath.Absolute.{join_paths-IsClean, is_abs-join_paths, IsClean, IsRooted}
use dark_stream.Common.{
  ◌⊎◌, ◌≡◌, ◌∷◌, ℕ, true, sym, subst, some, inr, inl, [], Option, List, All-append, All, ◌++◌,
}
use dark_stream.Scanner.{found_in, job_at, Scanner, Disk, ScannedJob, Entries}
use dark_stream.Scanner.Walk.{Scan, add_file, scan_directory, scan_directory-keeps}

module _ (sc : Scanner) (disk : Disk) where
  -- The source lies in the root, and the output in the output directory, if it does not replace the source.
  abbrev pub InPlace : ScannedJob → Type 0
  InPlace j =
      IsWithin disk.cwd sc.root_path j.source_path
      × (((sc.options.replace_source ≡ true) × (j.output_path ≡ j.source_path))
          ⊎ IsWithin disk.cwd sc.output_base j.output_path)

  abbrev pub IsProper : ScannedJob → Type 0
  IsProper j = IsAdmitted sc disk j.source_path j.output_path × InPlace j

  abbrev AllProper : Scan → Type 0
  AllProper st = All IsProper st.jobs

  module _ (rooted : IsRooted disk.cwd) (root_abs : is_abs sc.root_path ≡ true)
      (output_abs : is_abs sc.output_base ≡ true) where
    clean-IsWithin :
        (base path p : List ℕ)
        → IsClean path
        → validate_path_within_base disk.cwd base path ≡ some p
        → IsWithin disk.cwd base path
    clean-IsWithin base path p c v =
        validate_path_within_base-IsWithin disk.cwd base path path rooted
          (accepted_itself disk.cwd base path p c v)

    output-IsWithin :
        (path out : List ℕ) → IsPlaced sc disk path out → IsWithin disk.cwd sc.output_base out
    output-IsWithin path out placed =
        clean-IsWithin sc.output_base out placed.checked
          (subst IsClean (sym placed.placed) (join_paths-IsClean sc.output_base _ output_abs))
          placed.accepted

    proper :
        (path out : List ℕ)
        → IsClean path
        → IsAdmitted sc disk path out
        → IsProper (job_at sc disk path out)
    proper path out c a = (
      a,
      (
        clean-IsWithin sc.root_path path a.checked c a.accepted,
        elim a.output [ inl h ↦ inl h | inr h ↦ inr (output-IsWithin path out h) ],
      ),
    )

    adds_proper :
        (path name : List ℕ) (st : Scan)
        → is_abs path ≡ true
        → AllProper st
        → AllProper (add_file sc disk (join_paths path name) st)
    adds_proper dir name st e h =
        let path = join_paths dir name in
        elim (process_file-Explained sc disk path st.seen) [
          | inl q ↦
              subst (λ l. All IsProper (st.jobs ++ l)) (sym q.0)
                (All-append IsProper st.jobs [] h tt)
          | inr (out, q, a, _, _) ↦
              subst (λ p. All IsProper (st.jobs ++ found_in p)) (sym q)
                (All-append IsProper st.jobs (job_at sc disk path out ∷ []) h
                  (proper path out (join_paths-IsClean dir name e) a, tt))
        ]

    -- With absolute directories, every job of a scan has a source in the root that is a video of the right size, and is not
    -- hidden where hidden files are skipped, and an output that lies in the output directory, or is the source
    -- where sources are replaced.
    pub scan_directory-IsProper :
        (root : Option Entries) → All IsProper (scan_directory sc disk root).jobs
    scan_directory-IsProper root =
        scan_directory-keeps sc disk (λ path. is_abs path ≡ true)
          (λ path name e. is_abs-join_paths path name e) AllProper adds_proper root root_abs tt
