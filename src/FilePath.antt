-- ===== src/FilePath.antt =====
-- What the program uses of Go's package path/filepath, on Unix, over code points: `Clean`, `Abs`, `Join` and `Rel`.
pub mod Names
pub mod Cleaning
pub mod Climbing
pub mod Absolute
use mathlib.Core.Option
use dark_stream.Common.{
  take, length, drop, ◌-◌, ◌∷◌, ℕ, ◌||◌, true, some, not, none, map, if◌then◌else◌, false, [],
  Option, List, Bool, ◌==◌, ◌++◌, ◌&&◌,
}

abbrev pub slash : ℕ
slash = b'/'

abbrev pub dot : List ℕ
dot = b'.' ∷ []

abbrev pub dot_dot : List ℕ
dot_dot = b'.' ∷ b'.' ∷ []

abbrev pub same_text : List ℕ → List ℕ → Bool
same_text [] [] = true
same_text [] (_ ∷ _) = false
same_text (_ ∷ _) [] = false
same_text (c ∷ s) (d ∷ t) = c == d && same_text s t

abbrev pub on_first : ℕ → List (List ℕ) → List (List ℕ)
on_first c [] = (c ∷ []) ∷ []
on_first c (w ∷ ws) = (c ∷ w) ∷ ws

-- strings.Split(path, "/").
unfoldable pub split : List ℕ → List (List ℕ)
split [] = [] ∷ []
split (c ∷ s) = let rest = split s in if c == slash then [] ∷ rest else on_first c rest

-- strings.Join(names, "/").
unfoldable pub join : List (List ℕ) → List ℕ
join [] = []
join (w ∷ []) = w
join (w ∷ v ∷ ws) = w ++ slash ∷ join (v ∷ ws)

abbrev pub is_abs : List ℕ → Bool
is_abs [] = false
is_abs (c ∷ _) = c == slash

-- A path step up, from the names that are kept, the last one first.
abbrev pub go_up : Bool → List (List ℕ) → List (List ℕ)
go_up true [] = []
go_up false [] = dot_dot ∷ []
go_up rooted (w ∷ ws) = if same_text w dot_dot then dot_dot ∷ w ∷ ws else ws

abbrev pub step : Bool → List ℕ → List (List ℕ) → List (List ℕ)
step rooted w kept =
    if same_text w [] || same_text w dot
    then kept
    else if same_text w dot_dot
    then go_up rooted kept
    else w ∷ kept

unfoldable pub walk : Bool → List (List ℕ) → List (List ℕ) → List (List ℕ)
walk rooted [] kept = kept
walk rooted (w ∷ ws) kept = walk rooted ws (step rooted w kept)

abbrev pub reverse_onto : List (List ℕ) → List (List ℕ) → List (List ℕ)
reverse_onto [] out = out
reverse_onto (w ∷ ws) out = reverse_onto ws (w ∷ out)

-- The names that a path leads through.
unfoldable pub names : List ℕ → List (List ℕ)
names path = reverse_onto (walk (is_abs path) (split path) []) []

unfoldable pub render : Bool → List (List ℕ) → List ℕ
render true ws = slash ∷ join ws
render false [] = dot
render false (w ∷ ws) = join (w ∷ ws)

unfoldable pub clean : List ℕ → List ℕ
clean path = render (is_abs path) (names path)

-- `filepath.Join` of two elements: empty ones in front are left out.
unfoldable pub join_paths : List ℕ → List ℕ → List ℕ
join_paths [] [] = []
join_paths [] (c ∷ s) = clean (c ∷ s)
join_paths (b ∷ base) path = clean ((b ∷ base) ++ slash ∷ path)

-- `filepath.Abs`, for the working directory if there is one to be read.
unfoldable pub absolute : Option (List ℕ) → List ℕ → Option (List ℕ)
absolute cwd path =
    if is_abs path then some (clean path) else Option.map (λ dir. join_paths dir path) cwd

-- Up from what is left of the base, and down to the target; no way leads up from `..`.
abbrev pub way : List (List ℕ) → List (List ℕ) → Option (List (List ℕ))
way [] target = some target
way (w ∷ ws) target =
    if same_text w dot_dot then none else some (map (λ _. dot_dot) (w ∷ ws) ++ target)

unfoldable pub relative_names : List (List ℕ) → List (List ℕ) → Option (List (List ℕ))
relative_names [] target = way [] target
relative_names (w ∷ ws) [] = way (w ∷ ws) []
relative_names (w ∷ ws) (v ∷ vs) =
    let deeper = relative_names ws vs in if same_text w v then deeper else way (w ∷ ws) (v ∷ vs)

-- `filepath.Rel`.
unfoldable pub relative : List ℕ → List ℕ → Option (List ℕ)
relative base target =
    if same_text (clean target) (clean base)
    then some dot
    else if not (is_abs base && is_abs target) && (is_abs base || is_abs target)
    then none
    else Option.map join (relative_names (names base) (names target))

abbrev pub last_name : List (List ℕ) → List ℕ → List ℕ
last_name [] w = w
last_name ([] ∷ ws) w = last_name ws w
last_name ((c ∷ s) ∷ ws) w = last_name ws (c ∷ s)

-- `filepath.Base`.
unfoldable pub base_name : List ℕ → List ℕ
base_name [] = dot
base_name (c ∷ s) = last_name (split (c ∷ s)) (slash ∷ [])

unfoldable pub ext_from : List ℕ → List ℕ → List ℕ
ext_from [] found = found
ext_from (c ∷ s) found = ext_from s (if c == b'.' then c ∷ s else if c == slash then [] else found)

-- `filepath.Ext`: from the last dot of the last name on.
abbrev pub ext : List ℕ → List ℕ
ext path = ext_from path []

-- strings.TrimSuffix.
abbrev pub trim_suffix : List ℕ → List ℕ → List ℕ
trim_suffix s suffix =
    let n = length s - length suffix in if same_text (drop n s) suffix then take n s else s
