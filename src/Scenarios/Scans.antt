-- ===== src/Scenarios/Scans.antt =====
-- Scans of a small tree.
use dark_stream.Containment.{validate_path_within_base}
use dark_stream.FilePath.{
  absolute, relative_names, relative, ext_from, walk, names, join, split, render, clean, join_paths,
  base_name,
}
use dark_stream.Scanner.Walk.{scan_entries, scan_directory}
use dark_stream.Scanner.Admitted.{scan_directory-IsProper, IsProper}
use dark_stream.Scanner.Distinct.{scan_directory-NoRepeat, IsUnknown, NoRepeat}
use dark_stream.Server.{codes}
use dark_stream.Common.{◌≡◌, refl, map, All, ◌∷◌, true, take, some, pos, none, length, false, []}
use dark_stream.Scanner.{
  output_path_of, is_duplicate, process_file, Disk, Scanner, ScanOptions, Entries, file, directory,
  closed, end, entry,
}

abbrev disk : Disk
disk = record {
  cwd = some (codes "/srv");
  stat = λ path. some (false, length path);
  hash = λ path. some (take 10 path);
  checksum = λ path. some (take 10 path);
  lower = λ s. s;
  id_of = λ path. path;
}

abbrev options : ScanOptions
options = record {
  max_depth = pos 1;
  min_file_size = 0;
  max_file_size = 0;
  skip_hidden_files = true;
  skip_hidden_dirs = true;
  replace_source = false;
  detect_duplicates = true;
  duplicate_checker = none;
}

abbrev scanner : Scanner
scanner = record {
  root_path = codes "/films";
  video_extensions = codes ".mkv" ∷ [];
  output_base = codes "/out";
  options = options;
  seen_hashes = [];
}

-- One film, its copy under a longer name, a hidden one, one below, and one that is too far below.
abbrev tree : Entries
tree = entry (file (codes "ab.mkv")) (
    entry (file (codes "ab.x.mkv")) (
      entry (file (codes ".c.mkv")) (
        entry
          (directory (codes "d") (
            entry (file (codes "e.mkv"))
              (entry (directory (codes "f") (entry (file (codes "g.mkv")) end)) end)))
          (entry (closed (codes "h")) end))))

outputs :
    map (λ j. j.output_path) (scan_directory scanner disk (some tree)).jobs
    ≡ codes "/out/ab.mp4" ∷ codes "/out/d/e.mp4" ∷ []
unfolding scan_directory scan_entries process_file base_name join_paths clean render split join
    names walk ext_from is_duplicate output_path_of relative relative_names
    validate_path_within_base absolute
outputs = refl

scan_directory-NoRepeat_example :
    NoRepeat scanner disk (scan_directory scanner disk (some tree)).jobs
    × All (IsUnknown scanner disk) (scan_directory scanner disk (some tree)).jobs
scan_directory-NoRepeat_example = scan_directory-NoRepeat scanner disk refl (some tree)

scan_directory-IsProper_example :
    All (IsProper scanner disk) (scan_directory scanner disk (some tree)).jobs
scan_directory-IsProper_example = scan_directory-IsProper scanner disk refl refl refl (some tree)
