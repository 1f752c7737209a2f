-- ===== src/FilePath/Names.antt =====
-- Names in a path, and what `split` and `join` are to each other.
use dark_stream.FilePath.{dot_dot, on_first, join, slash, split, dot, same_text}
use dark_stream.Common.{
  subst, ◌≢◌, ◌≡◌, ◌∷◌, ◌∙◌, ℕ, true, refl, inr, inl, false, arith, ap, [], List, Bool-cases,
  All-map, All, ◌==◌, ◌++◌,
}

pub same_text_self : (s : List ℕ) → same_text s s ≡ true
same_text_self [] = refl
same_text_self (c ∷ s) = ground (arith, same_text_self s)

pub same_text-true : (s t : List ℕ) → same_text s t ≡ true → s ≡ t
same_text-true [] [] h = refl
same_text-true [] (d ∷ t) h = ground arith
same_text-true (c ∷ s) [] h = ground arith
same_text-true (c ∷ s) (d ∷ t) h =
    let e : c ≡ d = ground arith in
    let k : same_text s t ≡ true = ground arith in
    ap (λ x. x ∷ s) e ∙ ap (λ x. d ∷ x) (same_text-true s t k)

pub same_text_ne : (s t : List ℕ) → s ≢ t → same_text s t ≡ false
same_text_ne s t h = elim (Bool-cases (same_text s t)) [
  | inl e ↦ absurd (h (same_text-true s t e))
  | inr e ↦ e
]

pub same_text-false : (s t : List ℕ) → same_text s t ≡ false → s ≢ t
same_text-false s t h e =
    let k : same_text s t ≡ true = subst (λ x. same_text s x ≡ true) e (same_text_self s) in
    ground arith

abbrev pub NoSlash : List ℕ → Type 0
NoSlash w = All (λ c. c ≢ slash) w

-- What may stand between two slashes of a clean absolute path.
abbrev pub IsName : List ℕ → Type 0
IsName w = (w ≢ []) × (w ≢ dot) × (w ≢ dot_dot) × NoSlash w

pub split-append : (w rest : List ℕ) → NoSlash w → split (w ++ slash ∷ rest) ≡ w ∷ split rest
unfolding split
split-append [] rest h = refl
split-append (c ∷ w) rest h =
    let e : (c == slash) ≡ false = ground (arith, h.0) in rw (e, split-append w rest h.1) refl

pub split_name : (w : List ℕ) → NoSlash w → split w ≡ w ∷ []
unfolding split
split_name [] h = refl
split_name (c ∷ w) h =
    let e : (c == slash) ≡ false = ground (arith, h.0) in rw (e, split_name w h.1) refl

pub split-join :
    (w : List ℕ) (ws : List (List ℕ)) → All NoSlash (w ∷ ws) → split (join (w ∷ ws)) ≡ w ∷ ws
unfolding join
split-join w [] h = split_name w h.0
split-join w (v ∷ ws) h = split-append w (join (v ∷ ws)) h.0 ∙ ap (λ r. w ∷ r) (split-join v ws h.1)

on_first-NoSlash :
    (c : ℕ) (ws : List (List ℕ)) → c ≢ slash → All NoSlash ws → All NoSlash (on_first c ws)
on_first-NoSlash c [] h k = ((h, tt), tt)
on_first-NoSlash c (w ∷ ws) h k = ((h, k.0), k.1)

pub split-NoSlash : (p : List ℕ) → All NoSlash (split p)
unfolding split
split-NoSlash [] = (tt, tt)
split-NoSlash (c ∷ s) = elim (Bool-cases (c == slash)) [
  | inl e ↦ rw e (tt, split-NoSlash s)
  | inr e ↦ rw e (on_first-NoSlash c (split s) (ground arith) (split-NoSlash s))
]

pub All-NoSlash : (ws : List (List ℕ)) → All IsName ws → All NoSlash ws
All-NoSlash ws h = All-map IsName NoSlash (λ w n. n.3) ws h
