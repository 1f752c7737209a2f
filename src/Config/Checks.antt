-- ===== src/Config/Checks.antt =====
-- What the checks of a configuration mean.
use dark_stream.Text.{is_digit}
use dark_stream.Common.{
  false, ◌⊎◌, ◌≢◌, ◌≡◌, ◌∷◌, ◌∙◌, ◌↔◌, ℕ, true, sym, subst, refl, inr, inl, arith, append_nil, ap,
  [], List, Bool-cases, All, ◌++◌, ◌&&◌,
}
use dark_stream.Config.{
  starts_digit, after_digits, is_end, height, matches_resolution, is_unit, unit, matches_bitrate,
}

abbrev pub IsDigits : List ℕ → Type 0
IsDigits w = All (λ c. is_digit c ≡ true) w

abbrev pub IsNumber : List ℕ → Type 0
IsNumber w = (w ≢ []) × IsDigits w

-- A width, an x and a height.
abbrev pub IsResolution : List ℕ → Type 0
IsResolution s = (w : List ℕ) × (h : List ℕ) × IsNumber w × IsNumber h × (s ≡ w ++ b'x' ∷ h)

-- No unit, or one.
abbrev pub IsUnit : List ℕ → Type 0
IsUnit u = (u ≡ []) ⊎ ((c : ℕ) × (is_unit c ≡ true) × (u ≡ c ∷ []))

abbrev pub IsBitrate : List ℕ → Type 0
IsBitrate s = (w : List ℕ) × (u : List ℕ) × IsNumber w × IsUnit u × (s ≡ w ++ u)

-- The digits in front.
number_in :
    (s : List ℕ)
    → (w : List ℕ) × IsDigits w × (s ≡ w ++ after_digits s) × (starts_digit s ≡ true → w ≢ [])
number_in [] = ([], tt, refl, λ h. absurd (ground arith))
number_in (c ∷ s) = elim (Bool-cases (is_digit c)) [
  | inl e ↦
      let r = number_in s in
      (c ∷ r.0, (e, r.1), rw e (ap (λ x. c ∷ x) r.2), λ _ k. absurd (ground arith))
  | inr e ↦ ([], tt, rw e refl, λ h. absurd (ground arith))
]

after_digits-append : (w r : List ℕ) → IsDigits w → after_digits (w ++ r) ≡ after_digits r
after_digits-append [] r h = refl
after_digits-append (c ∷ w) r h = rw h.0 (after_digits-append w r h.1)

starts_digit-append : (w r : List ℕ) → IsNumber w → starts_digit (w ++ r) ≡ true
starts_digit-append [] r h = absurd (h.0 refl)
starts_digit-append (c ∷ w) r h = h.1.0

after_digits_all : (w : List ℕ) → IsDigits w → after_digits w ≡ []
after_digits_all w h = ap after_digits (sym (append_nil w)) ∙ after_digits-append w [] h

is_end-true : (s : List ℕ) → is_end s ≡ true → s ≡ []
is_end-true [] h = refl
is_end-true (c ∷ s) h = absurd (ground arith)

all_digits : (s : List ℕ) → starts_digit s ≡ true → is_end (after_digits s) ≡ true → IsNumber s
all_digits s h k =
    let r = number_in s in
    let e : s ≡ r.0 = r.2 ∙ ap (λ x. r.0 ++ x) (is_end-true (after_digits s) k) ∙ append_nil r.0 in
    subst IsNumber (sym e) (r.3 h, r.1)

-- The width of a resolution, or the number of a bitrate, with what follows it.
module _ (s : List ℕ) (starts : starts_digit s ≡ true) where
  front : (rest : List ℕ) → after_digits s ≡ rest → (w : List ℕ) × IsNumber w × (s ≡ w ++ rest)
  front rest e = let r = number_in s in (r.0, (r.3 starts, r.1), r.2 ∙ ap (λ x. r.0 ++ x) e)

  resolution : (rest : List ℕ) → after_digits s ≡ rest → height rest ≡ true → IsResolution s
  resolution [] e h = absurd (ground arith)
  resolution (c ∷ t) e h =
      let f = front (c ∷ t) e in
      let x : c ≡ b'x' = ground arith in
      (f.0, t, f.1, all_digits t (ground arith) (ground arith), f.2 ∙ ap (λ d. f.0 ++ d ∷ t) x)

  bitrate : (rest : List ℕ) → after_digits s ≡ rest → unit rest ≡ true → IsBitrate s
  bitrate [] e h = let f = front [] e in (f.0, [], f.1, inl refl, f.2)
  bitrate (c ∷ t) e h =
      let f = front (c ∷ t) e in
      let n = is_end-true t (ground arith) in
      (f.0, c ∷ t, f.1, inr (c, ground arith, ap (λ x. c ∷ x) n), f.2)

pub matches_resolution_iff : (s : List ℕ) → (matches_resolution s ≡ true) ↔ IsResolution s
unfolding matches_resolution
matches_resolution_iff s = (
  λ h. resolution s (ground arith) (after_digits s) refl (ground arith),
  λ (w, t, n, m, e).
      subst (λ x. starts_digit x && height (after_digits x) ≡ true) (sym e)
        (rw (starts_digit-append w (b'x' ∷ t) n, after_digits-append w (b'x' ∷ t) n.1)
          (numbered t m)),
)
  where
    numbered : (t : List ℕ) → IsNumber t → height (b'x' ∷ t) ≡ true
    numbered [] m = absurd (m.0 refl)
    numbered (c ∷ t) m = rw (m.1.0, after_digits_all t m.1.1) refl

unit-true : (u : List ℕ) → IsUnit u → (after_digits u ≡ u) × (unit u ≡ true)
unit-true u (inl e) = subst (λ x. (after_digits x ≡ x) × (unit x ≡ true)) (sym e) (refl, refl)
unit-true u (inr (c, k, e)) =
    let d : is_digit c ≡ false = ground arith in
    subst (λ x. (after_digits x ≡ x) × (unit x ≡ true)) (sym e) (rw d refl, rw k refl)

pub matches_bitrate_iff : (s : List ℕ) → (matches_bitrate s ≡ true) ↔ IsBitrate s
unfolding matches_bitrate
matches_bitrate_iff s = (
  λ h. bitrate s (ground arith) (after_digits s) refl (ground arith),
  λ (w, u, n, k, e).
      subst (λ x. starts_digit x && unit (after_digits x) ≡ true) (sym e)
        (rw
          (
            starts_digit-append w u n,
            after_digits-append w u n.1,
            (unit-true u k).0,
            (unit-true u k).1,
          )
          refl),
)
