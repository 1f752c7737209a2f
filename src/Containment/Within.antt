-- ===== src/Containment/Within.antt =====
-- What a path is that is accepted.
use dark_stream.FilePath.Absolute.{is_abs-absolute, is_abs-render, IsRooted, is_abs-join_paths}
use mathlib.Core.Option
use mathlib.Core.List.{Mem, mem-cons_self, mem-cons_of_mem}
use dark_stream.FilePath.Cleaning.{names-render, clean-render, names-All, clean_absolute}
use dark_stream.FilePath.Names.{same_text-true, IsName}
use dark_stream.FilePath.Climbing.{relative_names_down, Climbs}
use dark_stream.Containment.{
  validate_path_in_allowed_dirs, check_relative, check_within, any_is, validate_path_within_base,
  check_target, resolved, climbs, has_code,
}
use dark_stream.FilePath.{
  same_text, split, relative_names, relative, dot_dot, names, clean, is_abs, join, render, absolute,
  join_paths,
}
use dark_stream.Common.{
  append_nil, Option-cases, ◌∙◌, ap, ◌≡◌, ◌∷◌, ℕ, true, sym, subst, some_inj, some, refl, none, inr,
  inl, false, arith, [], Option, List, Bool-cases, All, ◌++◌,
}

abbrev pub HasNoNul : List ℕ → Type 0
HasNoNul path = has_code 0 path ≡ false

-- `path` is written as an absolute path without empty names, `.` and `..`, and it begins with the names of the
-- directory that `base` stands for.
abbrev pub IsWithin : Option (List ℕ) → List ℕ → List ℕ → Type 0
IsWithin cwd base path =
    (dir : List ℕ) × (ws : List (List ℕ)) × (vs : List (List ℕ)) × (absolute cwd base ≡ some dir)
    × (clean dir ≡ render true ws)
    × (path ≡ render true (ws ++ vs))
    × All IsName (ws ++ vs)
    × HasNoNul path

-- The target made absolute is clean.
pub resolved_clean :
    (base target : List ℕ)
    → is_abs base ≡ true
    → (ts : List (List ℕ)) × All IsName ts × (resolved base target ≡ render true ts)
resolved_clean base target e = elim (Bool-cases (is_abs target)) [
  | inl a ↦ (names target, names-All target a, rw a (clean_absolute target a))
  | inr a ↦
      let j = join_paths base target in
      let k = is_abs-join_paths base target e in (names j, names-All j k, rw a (clean_absolute j k))
]

climbs-join : (r : List (List ℕ)) → Climbs r → climbs (join r) ≡ true
unfolding join
climbs-join r (rest, e) = subst (λ x. climbs (join x) ≡ true) (sym e) (up rest)
  where
    up : (rest : List (List ℕ)) → climbs (join (dot_dot ∷ rest)) ≡ true
    up [] = refl
    up (w ∷ ws) = refl

-- A relative path between clean absolute paths that does not climb: the target is the base, or below it.
relative_below :
    (ws ts : List (List ℕ)) (r : List ℕ)
    → All IsName ws
    → All IsName ts
    → relative (render true ws) (render true ts) ≡ some r
    → climbs r ≡ false
    → (vs : List (List ℕ)) × (render true ts ≡ render true (ws ++ vs)) × All IsName (ws ++ vs)
unfolding relative
relative_below ws ts r hw ht h low =
    elim (Bool-cases (same_text (clean (render true ts)) (clean (render true ws)))) [
      | inl e ↦ (
        [],
        sym (clean-render ts ht)
            ∙ same_text-true _ _ e
            ∙ clean-render ws hw
            ∙ ap (render true) (sym (append_nil ws)),
        subst (All IsName) (sym (append_nil ws)) hw,
      )
      | inr e ↦
          let k : Option.map join (relative_names (names (render true ws)) (names (render true ts)))
              ≡ some r =
            rw (e, is_abs-render ws, is_abs-render ts) at h in
          down (relative_names ws ts) refl (
            subst (λ x. Option.map join (relative_names x ts) ≡ some r) (names-render ws hw)
              (subst (λ x. Option.map join (relative_names (names (render true ws)) x) ≡ some r)
                (names-render ts ht) k))
    ]
  where
    down :
        (o : Option (List (List ℕ)))
        → relative_names ws ts ≡ o
        → Option.map join o ≡ some r
        → (vs : List (List ℕ)) × (render true ts ≡ render true (ws ++ vs)) × All IsName (ws ++ vs)
    down none e k = absurd (ground arith)
    down (some way) e k = elim (relative_names_down ws ts way e) [
      | inl c ↦
          let up : climbs r ≡ true =
            subst (λ x. climbs x ≡ true) (some_inj k) (climbs-join way c) in
          absurd (ground arith)
      | inr d ↦ (way, ap (render true) d, subst (All IsName) d ht)
    ]

abbrev Below : List (List ℕ) → List ℕ → Type 0
Below ws p =
    (vs : List (List ℕ)) × (p ≡ render true (ws ++ vs)) × All IsName (ws ++ vs) × HasNoNul p

related-Below :
    (ws ts : List (List ℕ)) (o : Option (List ℕ)) (p : List ℕ)
    → All IsName ws
    → All IsName ts
    → relative (render true ws) (render true ts) ≡ o
    → check_relative (render true ts) o ≡ some p
    → Below ws p
related-Below ws ts none p hw ht e h = absurd (ground arith)
related-Below ws ts (some r) p hw ht e h = elim (Bool-cases (climbs r)) [
  | inl c ↦ let k : none ≡ some p = rw c at h in absurd (ground arith)
  | inr c ↦ elim (Bool-cases (has_code 0 (render true ts))) [
    | inl z ↦ let k : none ≡ some p = rw (c, z) at h in absurd (ground arith)
    | inr z ↦
        let k : some (render true ts) ≡ some p = rw (c, z) at h in
        let b = relative_below ws ts r hw ht e c in
        (b.0, sym (some_inj k) ∙ b.1, b.2, subst (λ x. has_code 0 x ≡ false) (some_inj k) z)
  ]
]

checked-Below :
    (ws : List (List ℕ)) (target p : List ℕ)
    → All IsName ws
    → check_target (render true ws) target ≡ some p
    → Below ws p
checked-Below ws target p hw h = elim (Bool-cases (any_is dot_dot (split target))) [
  | inl c ↦ let k : none ≡ some p = rw c at h in absurd (ground arith)
  | inr c ↦
      let base = render true ws in
      let t = resolved_clean base target (is_abs-render ws) in
      let k : check_relative (resolved base target) (relative base (resolved base target))
          ≡ some p =
        rw c at h in
      related-Below ws t.0 (relative base (render true t.0)) p hw t.1 refl
        (subst (λ x. check_relative x (relative base x) ≡ some p) t.2 k)
]

-- If the working directory is absolute, every path that is accepted within a base lies in the directory that the base stands for:
-- it is written as an absolute path without empty names, `.` and `..`, begins with the names of that directory, and has no NUL.
pub validate_path_within_base-IsWithin :
    (cwd : Option (List ℕ)) (base target p : List ℕ)
    → IsRooted cwd
    → validate_path_within_base cwd base target ≡ some p
    → IsWithin cwd base p
unfolding validate_path_within_base
validate_path_within_base-IsWithin cwd base target p rooted h = within (absolute cwd base) refl h
  where
    within :
        (o : Option (List ℕ))
        → absolute cwd base ≡ o
        → check_within target o ≡ some p
        → IsWithin cwd base p
    within none e k = absurd (ground arith)
    within (some dir) e k =
        let c = is_abs-absolute cwd base dir rooted e in
        let b =
          checked-Below (names dir) target p (names-All dir c)
            (subst (λ x. check_target x target ≡ some p) (clean_absolute dir c) k) in
        (dir, names dir, b.0, e, clean_absolute dir c, b.1, b.2, b.3)

-- `path` lies in one of the directories.
abbrev pub LiesIn : Option (List ℕ) → List (List ℕ) → List ℕ → Type 0
LiesIn cwd dirs path = (dir : List ℕ) × Mem dir dirs × IsWithin cwd dir path

-- If the working directory is absolute, every path that is accepted lies in one of the allowed directories.
pub validate_path_in_allowed_dirs-LiesIn :
    (cwd : Option (List ℕ)) (dirs : List (List ℕ)) (target p : List ℕ)
    → IsRooted cwd
    → validate_path_in_allowed_dirs cwd dirs target ≡ some p
    → LiesIn cwd dirs p
unfolding validate_path_in_allowed_dirs
validate_path_in_allowed_dirs-LiesIn cwd [] target p rooted h = absurd (ground arith)
validate_path_in_allowed_dirs-LiesIn cwd (dir ∷ dirs) target p rooted h =
    elim (Option-cases (validate_path_within_base cwd dir target)) [
      | inl e ↦
          let k : validate_path_in_allowed_dirs cwd dirs target ≡ some p = rw e at h in
          let r = validate_path_in_allowed_dirs-LiesIn cwd dirs target p rooted k in
          (r.0, mem-cons_of_mem dir r.1, r.2)
      | inr (q, e) ↦
          let k : some q ≡ some p = rw e at h in
          (dir, mem-cons_self, validate_path_within_base-IsWithin cwd dir target p rooted (e ∙ k))
    ]
