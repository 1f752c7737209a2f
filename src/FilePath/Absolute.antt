-- ===== src/FilePath/Absolute.antt =====
-- What `Abs` gives is an absolute path.
use dark_stream.FilePath.Names.{IsName}
use dark_stream.FilePath.Cleaning.{names-All, clean_absolute}
use dark_stream.FilePath.{names, clean, slash, join_paths, absolute, is_abs, render}
use dark_stream.Common.{
  All, ◌≡◌, ◌∷◌, ℕ, true, sym, subst, some_inj, some, refl, none, inr, inl, arith, [], Option, List,
  Bool-cases, ◌++◌,
}
use mathlib.Core.Option

-- The working directory, if it can be read, is an absolute path.
abbrev pub IsRooted : Option (List ℕ) → Type 0
IsRooted none = Unit
IsRooted (some dir) = is_abs dir ≡ true

pub is_abs-render : (ws : List (List ℕ)) → is_abs (render true ws) ≡ true
unfolding render
is_abs-render ws = refl

pub is_abs-clean : (p : List ℕ) → is_abs p ≡ true → is_abs (clean p) ≡ true
is_abs-clean p e = subst (λ x. is_abs x ≡ true) (sym (clean_absolute p e)) (is_abs-render (names p))

pub is_abs-join_paths :
    (dir path : List ℕ) → is_abs dir ≡ true → is_abs (join_paths dir path) ≡ true
unfolding join_paths
is_abs-join_paths [] path e = absurd (ground arith)
is_abs-join_paths (c ∷ s) path e = is_abs-clean ((c ∷ s) ++ slash ∷ path) e

pub is_abs-absolute :
    (cwd : Option (List ℕ)) (path dir : List ℕ)
    → IsRooted cwd
    → absolute cwd path ≡ some dir
    → is_abs dir ≡ true
unfolding absolute
is_abs-absolute cwd path dir rooted h = elim (Bool-cases (is_abs path)) [
  | inl e ↦
      let k : some (clean path) ≡ some dir = rw e at h in
      subst (λ x. is_abs x ≡ true) (some_inj k) (is_abs-clean path e)
  | inr e ↦
      let k : Option.map (λ d. join_paths d path) cwd ≡ some dir = rw e at h in joined cwd rooted k
]
  where
    joined :
        (o : Option (List ℕ))
        → IsRooted o
        → Option.map (λ d. join_paths d path) o ≡ some dir
        → is_abs dir ≡ true
    joined none r k = absurd (ground arith)
    joined (some d) r k = subst (λ x. is_abs x ≡ true) (some_inj k) (is_abs-join_paths d path r)

-- A path without empty names, `.` and `..`.
abbrev pub IsClean : List ℕ → Type 0
IsClean path = (ts : List (List ℕ)) × All IsName ts × (path ≡ render true ts)

pub join_paths-IsClean : (dir path : List ℕ) → is_abs dir ≡ true → IsClean (join_paths dir path)
unfolding join_paths
join_paths-IsClean [] path e = absurd (ground arith)
join_paths-IsClean (c ∷ s) path e =
    let p = (c ∷ s) ++ slash ∷ path in (names p, names-All p e, clean_absolute p e)
