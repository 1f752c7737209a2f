-- ===== src/FilePath/Climbing.antt =====
-- The way from one clean absolute path to another: up at first, or only down.
use dark_stream.FilePath.Names.{same_text-true, same_text_self}
use dark_stream.FilePath.{same_text, relative_names, dot_dot, way}
use dark_stream.Common.{
  some_inj, ◌⊎◌, ◌≡◌, ◌∷◌, ◌∙◌, ℕ, sym, some, refl, none, map, inr, inl, arith, ap, [], List,
  Bool-cases, ◌++◌,
}

abbrev pub Climbs : List (List ℕ) → Type 0
Climbs way = (rest : List (List ℕ)) × (way ≡ dot_dot ∷ rest)

way-Climbs : (w : List ℕ) (ws target r : List (List ℕ)) → way (w ∷ ws) target ≡ some r → Climbs r
way-Climbs w ws target r h = elim (Bool-cases (same_text w dot_dot)) [
  | inl e ↦ let k : none ≡ some r = rw e at h in absurd (ground arith)
  | inr e ↦
      let k : some (dot_dot ∷ (map (λ _. dot_dot) ws ++ target)) ≡ some r = rw e at h in
      (map (λ _. dot_dot) ws ++ target, sym (some_inj k))
]

-- A way that does not go up first leads down from the base.
pub relative_names_down :
    (base target r : List (List ℕ))
    → relative_names base target ≡ some r
    → Climbs r ⊎ (target ≡ base ++ r)
unfolding relative_names
relative_names_down [] target r h = inr (some_inj h)
relative_names_down (w ∷ ws) [] r h = inl (way-Climbs w ws [] r h)
relative_names_down (w ∷ ws) (v ∷ vs) r h = elim (Bool-cases (same_text w v)) [
  | inl e ↦
      let k : relative_names ws vs ≡ some r = rw e at h in
      elim (relative_names_down ws vs r k) [
        | inl c ↦ inl c
        | inr d ↦ inr (ap (λ x. x ∷ vs) (sym (same_text-true w v e)) ∙ ap (λ x. w ∷ x) d)
      ]
  | inr e ↦ let k : way (w ∷ ws) (v ∷ vs) ≡ some r = rw e at h in inl (way-Climbs w ws (v ∷ vs) r k)
]

pub relative_names-append :
    (base rest : List (List ℕ)) → relative_names base (base ++ rest) ≡ some rest
unfolding relative_names
relative_names-append [] rest = refl
relative_names-append (w ∷ ws) rest = rw (same_text_self w) (relative_names-append ws rest)
