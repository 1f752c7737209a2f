-- ===== src/Containment/Stable.antt =====
-- A path that was accepted is accepted again, as it is: the handlers check the paths in the table once more.
use dark_stream.FilePath.Climbing.{relative_names-append}
use dark_stream.FilePath.Cleaning.{clean-render, names-render}
use dark_stream.Containment.Within.{
  validate_path_within_base-IsWithin, validate_path_in_allowed_dirs-LiesIn, IsWithin, HasNoNul,
}
use dark_stream.FilePath.Absolute.{IsClean, is_abs-render, IsRooted}
use dark_stream.FilePath.Names.{same_text_ne, All-NoSlash, split-join, IsName}
use dark_stream.FilePath.{
  absolute, dot, clean, slash, dot_dot, same_text, render, relative, join, split,
}
use dark_stream.Containment.{
  first_valid, validate_path_in_allowed_dirs, check_target, check_within, resolved,
  validate_path_within_base, has_code, any_is, climbs, check_relative,
}
use dark_stream.Common.{
  subst, arith, Option-cases, ◌⊎◌, ◌≡◌, ◌∷◌, ◌∙◌, ℕ, true, take-append-drop, take, sym, some, refl,
  none, inr, inl, false, drop, ap, [], Option, List, Bool-cases, All, ◌++◌,
}

module _ (v : List ℕ) (vs : List (List ℕ)) (h : All IsName (v ∷ vs)) where
  first_is : (w : List ℕ) (rest : List (List ℕ)) → split (join (v ∷ vs)) ≡ w ∷ rest → v ≡ w
  first_is w rest e =
      let k : v ∷ vs ≡ w ∷ rest = sym (split-join v vs (All-NoSlash (v ∷ vs) h)) ∙ e in cc

  not_up : same_text (join (v ∷ vs)) dot_dot ≡ false
  unfolding split
  not_up = same_text_ne (join (v ∷ vs)) dot_dot (λ e. h.0.2 (first_is dot_dot [] (ap split e)))

  not_further_up : same_text (take 3 (join (v ∷ vs))) (dot_dot ++ slash ∷ []) ≡ false
  unfolding split
  not_further_up = same_text_ne (take 3 (join (v ∷ vs))) (dot_dot ++ slash ∷ []) λ e.
      let path = join (v ∷ vs) in
      let k : path ≡ dot_dot ++ slash ∷ drop 3 path =
        sym (take-append-drop 3 path) ∙ ap (λ x. x ++ drop 3 path) e in
      h.0.2 (first_is dot_dot (split (drop 3 path)) (ap split k))

stays : (vs : List (List ℕ)) → All IsName vs → climbs (join vs) ≡ false
unfolding join
stays [] h = refl
stays (v ∷ vs) h = rw (not_up v vs h, not_further_up v vs h) refl

All-right : (ws vs : List (List ℕ)) → All IsName (ws ++ vs) → All IsName vs
All-right [] vs h = h
All-right (w ∷ ws) vs h = All-right ws vs h.1

relative_stays :
    (ws vs : List (List ℕ))
    → All IsName ws
    → All IsName (ws ++ vs)
    → (r : List ℕ) × (relative (render true ws) (render true (ws ++ vs)) ≡ some r)
      × (climbs r ≡ false)
unfolding relative
relative_stays ws vs hw ht =
    let base = render true ws in
    let t = render true (ws ++ vs) in
    elim (Bool-cases (same_text (clean t) (clean base))) [
      | inl e ↦ (dot, rw e refl, refl)
      | inr e ↦ (
        join vs,
        rw
            (
              e,
              is_abs-render ws,
              is_abs-render (ws ++ vs),
              names-render ws hw,
              names-render (ws ++ vs) ht,
              relative_names-append ws vs,
            )
            refl,
        stays vs (All-right ws vs ht),
      )
    ]

accepts_same :
    (t : List ℕ) (o : Option (List ℕ)) → (check_relative t o ≡ none) ⊎ (check_relative t o ≡ some t)
accepts_same t none = inl refl
accepts_same t (some r) = elim (Bool-cases (climbs r)) [
  | inl c ↦ rw c (inl refl)
  | inr c ↦ elim (Bool-cases (has_code 0 t)) [
    | inl z ↦ rw (c, z) (inl refl)
    | inr z ↦ rw (c, z) (inr refl)
  ]
]

no_dots : (ws : List (List ℕ)) → All IsName ws → any_is dot_dot ws ≡ false
no_dots [] h = refl
no_dots (w ∷ ws) h = rw (same_text_ne w dot_dot h.0.2, no_dots ws h.1) refl

no_dots_in : (ws : List (List ℕ)) → All IsName ws → any_is dot_dot (split (render true ws)) ≡ false
unfolding split render join
no_dots_in [] h = refl
no_dots_in (w ∷ ws) h = rw (split-join w ws (All-NoSlash (w ∷ ws) h)) (no_dots (w ∷ ws) h)

resolved_same :
    (base : List ℕ) (ts : List (List ℕ))
    → All IsName ts
    → resolved base (render true ts) ≡ render true ts
resolved_same base ts h = rw (is_abs-render ts) (clean-render ts h)

check_again :
    (ws vs : List (List ℕ))
    → All IsName ws
    → All IsName (ws ++ vs)
    → HasNoNul (render true (ws ++ vs))
    → check_target (render true ws) (render true (ws ++ vs)) ≡ some (render true (ws ++ vs))
check_again ws vs hw ht z =
    let r = relative_stays ws vs hw ht in
    rw (no_dots_in (ws ++ vs) ht, resolved_same (render true ws) (ws ++ vs) ht, r.1, r.2, z) refl

-- Any directory accepts a clean absolute path as it is, or not at all.
within_same :
    (cwd : Option (List ℕ)) (base : List ℕ) (ts : List (List ℕ))
    → All IsName ts
    → (validate_path_within_base cwd base (render true ts) ≡ none)
      ⊎ (validate_path_within_base cwd base (render true ts) ≡ some (render true ts))
unfolding validate_path_within_base
within_same cwd base ts h = same (absolute cwd base)
  where
    same :
        (o : Option (List ℕ))
        → (check_within (render true ts) o ≡ none)
          ⊎ (check_within (render true ts) o ≡ some (render true ts))
    same none = inl refl
    same (some dir) =
        rw (no_dots_in ts h, resolved_same (clean dir) ts h)
          (accepts_same (render true ts) (relative (clean dir) (render true ts)))

-- A clean path is what is accepted of it.
pub accepted_itself :
    (cwd : Option (List ℕ)) (base path p : List ℕ)
    → IsClean path
    → validate_path_within_base cwd base path ≡ some p
    → validate_path_within_base cwd base path ≡ some path
accepted_itself cwd base path p (ts, h, e) v =
    subst (λ x. validate_path_within_base cwd base x ≡ some x) (sym e)
      (elim (within_same cwd base ts h) [
        | inl k ↦
            let c : none ≡ some p =
              sym k ∙ subst (λ x. validate_path_within_base cwd base x ≡ some p) e v in
            absurd (ground arith)
        | inr k ↦ k
      ])

All-left : (ws vs : List (List ℕ)) → All IsName (ws ++ vs) → All IsName ws
All-left [] vs h = tt
All-left (w ∷ ws) vs h = (h.0, All-left ws vs h.1)

within_again :
    (cwd : Option (List ℕ)) (base p : List ℕ)
    → IsWithin cwd base p
    → validate_path_within_base cwd base p ≡ some p
unfolding validate_path_within_base
within_again cwd base p (dir, ws, vs, e, c, q, h, z) =
    rw (e, c)
      (subst (λ x. check_target (render true ws) x ≡ some x) (sym q)
        (check_again ws vs (All-left ws vs h) h (subst HasNoNul q z)))

-- If the working directory is absolute, a path that was accepted is accepted again and is not changed by that.
pub validate_path_in_allowed_dirs_again :
    (cwd : Option (List ℕ)) (dirs : List (List ℕ)) (target p : List ℕ)
    → IsRooted cwd
    → validate_path_in_allowed_dirs cwd dirs target ≡ some p
    → validate_path_in_allowed_dirs cwd dirs p ≡ some p
unfolding validate_path_in_allowed_dirs
validate_path_in_allowed_dirs_again cwd [] target p rooted h = absurd (ground arith)
validate_path_in_allowed_dirs_again cwd (dir ∷ dirs) target p rooted h =
    elim (Option-cases (validate_path_within_base cwd dir target)) [
      | inl e ↦
          let k : validate_path_in_allowed_dirs cwd dirs target ≡ some p = rw e at h in
          let l = validate_path_in_allowed_dirs-LiesIn cwd dirs target p rooted k in
          later l.0 l.2 (validate_path_in_allowed_dirs_again cwd dirs target p rooted k)
      | inr (q, e) ↦
          let k : some q ≡ some p = rw e at h in
          rw
            (within_again cwd dir p
              (validate_path_within_base-IsWithin cwd dir target p rooted (e ∙ k)))
            refl
    ]
  where
    later :
        (d : List ℕ)
        → IsWithin cwd d p
        → validate_path_in_allowed_dirs cwd dirs p ≡ some p
        → first_valid
            (validate_path_within_base cwd dir p)
            (validate_path_in_allowed_dirs cwd dirs p)
          ≡ some p
    later d (_, ws, vs, _, _, q, h, _) again = elim (within_same cwd dir (ws ++ vs) h) [
      | inl e ↦ rw (subst (λ x. validate_path_within_base cwd dir x ≡ none) (sym q) e) again
      | inr e ↦ rw (subst (λ x. validate_path_within_base cwd dir x ≡ some x) (sym q) e) refl
    ]
