-- ===== src/Scenarios/Paths.antt =====
-- Paths inside and outside two directories.
use dark_stream.FilePath.{
  join, split, relative_names, relative, render, walk, names, clean, join_paths, absolute,
}
use dark_stream.Containment.Stable.{validate_path_in_allowed_dirs_again}
use dark_stream.Server.{codes}
use dark_stream.Containment.{validate_path_within_base, validate_path_in_allowed_dirs}
use dark_stream.Containment.Within.{validate_path_in_allowed_dirs-LiesIn, LiesIn}
use dark_stream.Common.{◌≡◌, ◌∷◌, ℕ, some, refl, none, [], Option, List}

abbrev films : List ℕ
films = codes "/films"

abbrev dirs : List (List ℕ)
dirs = films ∷ codes "out/" ∷ []

abbrev cwd : Option (List ℕ)
cwd = some (codes "/srv")

abbrev asked : List ℕ
asked = codes "/srv/out//2024/./a.mkv"

abbrev found : List ℕ
found = codes "/srv/out/2024/a.mkv"

accepted : validate_path_in_allowed_dirs cwd dirs asked ≡ some found
unfolding validate_path_in_allowed_dirs validate_path_within_base absolute join_paths clean names
    walk render relative relative_names split join
accepted = refl

-- A name that only begins like the directory's.
beside : validate_path_in_allowed_dirs cwd dirs (codes "/films2/a.mkv") ≡ none
unfolding validate_path_in_allowed_dirs validate_path_within_base absolute join_paths clean names
    walk render relative relative_names split join
beside = refl

two_dots : validate_path_in_allowed_dirs cwd dirs (codes "/films/../etc") ≡ none
unfolding validate_path_in_allowed_dirs validate_path_within_base absolute join_paths clean names
    walk render relative relative_names split join
two_dots = refl

hidden : validate_path_in_allowed_dirs cwd dirs (codes "..a") ≡ some (codes "/films/..a")
unfolding validate_path_in_allowed_dirs validate_path_within_base absolute join_paths clean names
    walk render relative relative_names split join
hidden = refl

validate_path_in_allowed_dirs-LiesIn_example : LiesIn cwd dirs found
validate_path_in_allowed_dirs-LiesIn_example =
    validate_path_in_allowed_dirs-LiesIn cwd dirs asked found refl accepted

validate_path_in_allowed_dirs_again_example :
    validate_path_in_allowed_dirs cwd dirs found ≡ some found
validate_path_in_allowed_dirs_again_example =
    validate_path_in_allowed_dirs_again cwd dirs asked found refl accepted
