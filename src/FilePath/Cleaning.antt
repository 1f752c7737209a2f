-- ===== src/FilePath/Cleaning.antt =====
-- The clean form of an absolute path.
use dark_stream.FilePath.Names.{
  same_text-false, All-NoSlash, split-join, split-NoSlash, same_text_ne, NoSlash, IsName,
}
use dark_stream.FilePath.{
  go_up, same_text, dot_dot, join, dot, split, render, is_abs, step, reverse_onto, walk, clean,
  names,
}
use dark_stream.Common.{
  append_nil, inr, inl, Bool-cases, ◌≡◌, ◌∷◌, ◌∙◌, ℕ, true, refl, ap, [], List, Bool, All, ◌++◌,
}

step_name :
    (rooted : Bool) (w : List ℕ) (kept : List (List ℕ)) → IsName w → step rooted w kept ≡ w ∷ kept
step_name rooted w kept n =
    rw (same_text_ne w [] n.0, same_text_ne w dot n.1, same_text_ne w dot_dot n.2) refl

pub walk_names :
    (rooted : Bool) (ws kept : List (List ℕ))
    → All IsName ws
    → walk rooted ws kept ≡ reverse_onto ws kept
unfolding walk
walk_names rooted [] kept h = refl
walk_names rooted (w ∷ ws) kept h =
    ap (walk rooted ws) (step_name rooted w kept h.0) ∙ walk_names rooted ws (w ∷ kept) h.1

reverse_onto_twice :
    (ws kept out : List (List ℕ))
    → reverse_onto (reverse_onto ws kept) out ≡ reverse_onto kept (ws ++ out)
reverse_onto_twice [] kept out = refl
reverse_onto_twice (w ∷ ws) kept out = reverse_onto_twice ws (w ∷ kept) out

reverse_twice : (ws : List (List ℕ)) → reverse_onto (reverse_onto ws []) [] ≡ ws
reverse_twice ws = reverse_onto_twice ws [] [] ∙ append_nil ws

-- A clean absolute path leads through the names that it is written with.
pub names-render : (ws : List (List ℕ)) → All IsName ws → names (render true ws) ≡ ws
unfolding names render walk split join
names-render [] h = refl
names-render (w ∷ ws) h =
    rw (split-join w ws (All-NoSlash (w ∷ ws) h))
      (ap (λ r. reverse_onto r []) (walk_names true (w ∷ ws) [] h) ∙ reverse_twice (w ∷ ws))

pub clean-render : (ws : List (List ℕ)) → All IsName ws → clean (render true ws) ≡ render true ws
unfolding clean render
clean-render ws h = ap (render true) (names-render ws h)

go_up-All : (kept : List (List ℕ)) → All IsName kept → All IsName (go_up true kept)
go_up-All [] h = tt
go_up-All (w ∷ ws) h = rw (same_text_ne w dot_dot h.0.2) h.1

step-All :
    (w : List ℕ) (kept : List (List ℕ))
    → NoSlash w
    → All IsName kept
    → All IsName (step true w kept)
step-All w kept n h = elim (Bool-cases (same_text w [])) [
  | inl e ↦ rw e h
  | inr e ↦ elim (Bool-cases (same_text w dot)) [
    | inl d ↦ rw (e, d) h
    | inr d ↦ elim (Bool-cases (same_text w dot_dot)) [
      | inl u ↦ rw (e, d, u) (go_up-All kept h)
      | inr u ↦
          rw (e, d, u)
            ((same_text-false w [] e, same_text-false w dot d, same_text-false w dot_dot u, n), h)
    ]
  ]
]

walk-All :
    (ws kept : List (List ℕ)) → All NoSlash ws → All IsName kept → All IsName (walk true ws kept)
unfolding walk
walk-All [] kept n h = h
walk-All (w ∷ ws) kept n h = walk-All ws (step true w kept) n.1 (step-All w kept n.0 h)

reverse_onto-All :
    (ws out : List (List ℕ)) → All IsName ws → All IsName out → All IsName (reverse_onto ws out)
reverse_onto-All [] out h k = k
reverse_onto-All (w ∷ ws) out h k = reverse_onto-All ws (w ∷ out) h.1 (h.0, k)

-- An absolute path leads through names only, whatever it is written with.
pub names-All : (p : List ℕ) → is_abs p ≡ true → All IsName (names p)
unfolding names
names-All p e =
    rw e
      (reverse_onto-All (walk true (split p) []) [] (walk-All (split p) [] (split-NoSlash p) tt) tt)

pub clean_absolute : (p : List ℕ) → is_abs p ≡ true → clean p ≡ render true (names p)
unfolding clean
clean_absolute p e = ap (λ b. render b (names p)) e
