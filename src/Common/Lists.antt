-- ===== src/Common/Lists.antt =====
-- Lists measured by native numbers, under the library's names, and predicates over them.
use Prim.Native.Nat.{ℕ, zero, suc, ◌+◌, ◌-◌, ◌≤◌, min}
use mathlib.Core.Path.{◌≡◌, refl, ap, sym, ◌∙◌}
use mathlib.Core.Logic.{inl, inr}
use mathlib.Core.Bool.{Bool, true}
use mathlib.Core.List.{List, [], ◌∷◌, ◌++◌, map}
use native.Mathlib.Omega.{arith}
use dark_stream.Common.Tests.{Bool-cases, if◌then◌else◌}

module _ {ℓ} {A : Type ℓ} where
  abbrev pub length : List A → ℕ
  length [] = 0
  length (x ∷ xs) = suc (length xs)

  abbrev pub take : ℕ → List A → List A
  take zero xs = []
  take (suc n) [] = []
  take (suc n) (x ∷ xs) = x ∷ take n xs

  abbrev pub drop : ℕ → List A → List A
  drop zero xs = xs
  drop (suc n) [] = []
  drop (suc n) (x ∷ xs) = drop n xs

  abbrev pub filter : (A → Bool) → List A → List A
  filter p [] = []
  filter p (x ∷ xs) = let rest = filter p xs in if p x then x ∷ rest else rest

  -- How many entries pass the test.
  abbrev pub count : (A → Bool) → List A → ℕ
  count p [] = 0
  count p (x ∷ xs) = let rest = count p xs in if p x then suc rest else rest

  abbrev pub All {κ} : (A → Type κ) → List A → Type κ
  All P [] = Unit
  All P (x ∷ xs) = P x × All P xs

  pub append_nil : (xs : List A) → xs ++ [] ≡ xs
  append_nil [] = refl
  append_nil (x ∷ xs) = ap (λ r. x ∷ r) (append_nil xs)

  pub length-append : (xs ys : List A) → length (xs ++ ys) ≡ length xs + length ys
  length-append [] ys = omega arith
  length-append (x ∷ xs) ys = omega (arith, length-append xs ys)

  pub length-take : (n : ℕ) (xs : List A) → length (take n xs) ≡ min n (length xs)
  length-take zero xs = omega arith
  length-take (suc n) [] = omega arith
  length-take (suc n) (x ∷ xs) = omega (arith, length-take n xs)

  pub length-drop : (n : ℕ) (xs : List A) → length (drop n xs) ≡ length xs - n
  length-drop zero xs = omega arith
  length-drop (suc n) [] = omega arith
  length-drop (suc n) (x ∷ xs) = omega (arith, length-drop n xs)

  pub take_all : (n : ℕ) (xs : List A) → length xs ≤ n → take n xs ≡ xs
  take_all zero [] h = refl
  take_all zero (x ∷ xs) h = absurd (omega arith)
  take_all (suc n) [] h = refl
  take_all (suc n) (x ∷ xs) h = ap (λ r. x ∷ r) (take_all n xs (omega arith))

  pub take-append-drop : (n : ℕ) (xs : List A) → take n xs ++ drop n xs ≡ xs
  take-append-drop zero xs = refl
  take-append-drop (suc n) [] = refl
  take-append-drop (suc n) (x ∷ xs) = ap (λ r. x ∷ r) (take-append-drop n xs)

  -- Two takes in a row.
  pub take-append-take : (k m : ℕ) (xs : List A) → take k xs ++ take m (drop k xs) ≡ take (k + m) xs
  take-append-take zero m xs = rw zero_add
    where
      zero_add : 0 + m ≡ m
      zero_add = omega arith
  take-append-take (suc k) zero [] = rw (add_suc 0)
    where
      add_suc : (n : ℕ) → suc k + n ≡ suc (k + n)
      add_suc n = omega arith
  take-append-take (suc k) (suc m) [] = rw (add_suc (suc m))
    where
      add_suc : (n : ℕ) → suc k + n ≡ suc (k + n)
      add_suc n = omega arith
  take-append-take (suc k) m (x ∷ xs) =
      ap (λ r. x ∷ r) (take-append-take k m xs) ∙ ap (λ n. take n (x ∷ xs)) (sym add_suc)
    where
      add_suc : suc k + m ≡ suc (k + m)
      add_suc = omega arith

  pub take-length-take : (n : ℕ) (xs : List A) → take (length (take n xs)) xs ≡ take n xs
  take-length-take zero xs = refl
  take-length-take (suc n) [] = refl
  take-length-take (suc n) (x ∷ xs) = ap (λ r. x ∷ r) (take-length-take n xs)

  pub length-filter : (p : A → Bool) (xs : List A) → length (filter p xs) ≡ count p xs
  length-filter p [] = refl
  length-filter p (x ∷ xs) = ground (arith, length-filter p xs)

  pub All-take {κ} : (P : A → Type κ) (n : ℕ) (xs : List A) → All P xs → All P (take n xs)
  All-take P zero xs h = tt
  All-take P (suc n) [] h = tt
  All-take P (suc n) (x ∷ xs) h = (h.0, All-take P n xs h.1)

  pub All-drop {κ} : (P : A → Type κ) (n : ℕ) (xs : List A) → All P xs → All P (drop n xs)
  All-drop P zero xs h = h
  All-drop P (suc n) [] h = tt
  All-drop P (suc n) (x ∷ xs) h = All-drop P n xs h.1

  pub All-map {κ μ} :
      (P : A → Type κ) (Q : A → Type μ)
      → ((a : A) → P a → Q a)
      → (xs : List A) → All P xs
      → All Q xs
  All-map P Q f [] h = tt
  All-map P Q f (x ∷ xs) h = (f x h.0, All-map P Q f xs h.1)

  pub All-append {κ} : (P : A → Type κ) (xs ys : List A) → All P xs → All P ys → All P (xs ++ ys)
  All-append P [] ys h k = k
  All-append P (x ∷ xs) ys h k = (h.0, All-append P xs ys h.1 k)

  -- What passes a filter passes its test.
  pub All-filter : (p : A → Bool) (xs : List A) → All (λ a. p a ≡ true) (filter p xs)
  All-filter p [] = tt
  All-filter p (x ∷ xs) = ground (arith, All-filter p xs)

  pub filter-All {κ} :
      (P : A → Type κ) (p : A → Bool) (xs : List A) → All P xs → All P (filter p xs)
  filter-All P p [] h = tt
  filter-All P p (x ∷ xs) h = ground (arith, filter-All P p xs h.1)

  pub All-filter_inv {κ} :
      (P : A → Type κ) (p : A → Bool) (xs : List A)
      → All P (filter p xs)
      → All (λ a. p a ≡ true → P a) xs
  All-filter_inv P p [] h = tt
  All-filter_inv P p (x ∷ xs) h = elim (Bool-cases (p x)) [
    | inl e ↦ let k : All P (x ∷ filter p xs) = rw e at h in (λ _. k.0, All-filter_inv P p xs k.1)
    | inr e ↦ let k : All P (filter p xs) = rw e at h in (λ t. cc, All-filter_inv P p xs k)
  ]

  pub All-take-drop {κ} :
      (P : A → Type κ) (n : ℕ) (xs : List A) → All P (take n xs) → All P (drop n xs) → All P xs
  All-take-drop P zero xs h k = k
  All-take-drop P (suc n) [] h k = tt
  All-take-drop P (suc n) (x ∷ xs) h k = (h.0, All-take-drop P n xs h.1 k)

module _ {ℓ κ} {A : Type ℓ} (R : A → A → Type κ) where
  All-cons_each :
      (x : A) (xs ys : List A)
      → All (R x) ys
      → All (λ y. All (λ a. R a y) xs) ys
      → All (λ y. All (λ a. R a y) (x ∷ xs)) ys
  All-cons_each x xs [] h k = tt
  All-cons_each x xs (y ∷ ys) h k = ((h.0, k.0), All-cons_each x xs ys h.1 k.1)

  All-none : (ys : List A) → All (λ y. All (λ a. R a y) []) ys
  All-none [] = tt
  All-none (y ∷ ys) = (tt, All-none ys)

  -- Each of one list against each of another, read the other way round.
  pub All-swap : (xs ys : List A) → All (λ a. All (R a) ys) xs → All (λ y. All (λ a. R a y) xs) ys
  All-swap [] ys h = All-none ys
  All-swap (x ∷ xs) ys h = All-cons_each x xs ys h.0 (All-swap xs ys h.1)

module _ {ℓ κ} {A : Type ℓ} {B : Type κ} (f : A → B) where
  pub length-map : (xs : List A) → length (map f xs) ≡ length xs
  length-map [] = refl
  length-map (x ∷ xs) = ap suc (length-map xs)

  -- What holds of the images holds after `map`.
  pub All-map_of {μ} : (Q : B → Type μ) (xs : List A) → All (λ a. Q (f a)) xs → All Q (map f xs)
  All-map_of Q [] h = tt
  All-map_of Q (x ∷ xs) h = (h.0, All-map_of Q xs h.1)
