-- ===== src/Containment.antt =====
-- video-converter-common/utils/file.go: `ValidatePathWithinBase` and `ValidatePathInAllowedDirs`.
pub mod Within
pub mod Stable
use dark_stream.FilePath.{
  join_paths, relative, slash, split, is_abs, dot_dot, clean, same_text, absolute,
}
use dark_stream.Common.{
  ◌∷◌, ℕ, ◌||◌, take, some, none, if◌then◌else◌, false, [], Option, List, Bool, ◌==◌, ◌++◌,
}

abbrev pub any_is : List ℕ → List (List ℕ) → Bool
any_is w [] = false
any_is w (v ∷ vs) = same_text v w || any_is w vs

abbrev pub has_code : ℕ → List ℕ → Bool
has_code c [] = false
has_code c (d ∷ s) = d == c || has_code c s

-- A relative path that leaves its base.
abbrev pub climbs : List ℕ → Bool
climbs path = same_text path dot_dot || same_text (take 3 path) (dot_dot ++ slash ∷ [])

-- The target made absolute.
abbrev pub resolved : List ℕ → List ℕ → List ℕ
resolved base target = clean (if is_abs target then target else join_paths base target)

abbrev pub check_relative : List ℕ → Option (List ℕ) → Option (List ℕ)
check_relative target none = none
check_relative target (some path) =
    if climbs path then none else if has_code 0 target then none else some target

abbrev pub check_target : List ℕ → List ℕ → Option (List ℕ)
check_target base target =
    if any_is dot_dot (split target)
    then none
    else check_relative (resolved base target) (relative base (resolved base target))

abbrev pub check_within : List ℕ → Option (List ℕ) → Option (List ℕ)
check_within target none = none
check_within target (some base) = check_target (clean base) target

-- The cleaned absolute path, if the target lies in the base. `cwd` is the working directory.
unfoldable pub validate_path_within_base : Option (List ℕ) → List ℕ → List ℕ → Option (List ℕ)
validate_path_within_base cwd base target = check_within target (absolute cwd base)

abbrev pub first_valid : Option (List ℕ) → Option (List ℕ) → Option (List ℕ)
first_valid none other = other
first_valid (some path) other = some path

unfoldable pub validate_path_in_allowed_dirs :
    Option (List ℕ) → List (List ℕ) → List ℕ → Option (List ℕ)
validate_path_in_allowed_dirs cwd [] target = none
validate_path_in_allowed_dirs cwd (dir ∷ dirs) target =
    first_valid (validate_path_within_base cwd dir target)
      (validate_path_in_allowed_dirs cwd dirs target)
