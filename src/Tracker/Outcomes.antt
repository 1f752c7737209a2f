-- ===== src/Tracker/Outcomes.antt =====
-- How to reason about a chain of statements: the driver serves the next one, or refuses it.
use dark_stream.Common.{false, [], refl, ◌≡◌, Bool-cases, inl, inr}
use dark_stream.Tracker.{
  settle, in_transaction, next, Store, Result, Error, ok, err, driver, M, ◌>>=◌, statement, fails,
  later,
}

-- The store with one call of the driver behind it.
abbrev pub called : Store → Store
called s = record s { faults = later s.faults }

module _ {ℓ} {A B : Type 0} (f : Store → A × Store) (k : A → M B) (s : Store)
    (P : Result B × Store → Type ℓ) where
  pub statement_then :
      P (err driver, called s) → P (k (f (called s)).0 (f (called s)).1) → P ((statement f >>= k) s)
  unfolding statement
  statement_then refused served = elim (Bool-cases (fails s.faults)) [
    | inl e ↦ rw e refused
    | inr e ↦ rw e served
  ]

module _ {ℓ} {A : Type 0} (f : Store → A × Store) (s : Store) (P : Result A × Store → Type ℓ) where
  pub statement_alone :
      P (err driver, called s) → P (ok (f (called s)).0, (f (called s)).1) → P (statement f s)
  unfolding statement
  statement_alone refused served = elim (Bool-cases (fails s.faults)) [
    | inl e ↦ rw e refused
    | inr e ↦ rw e served
  ]

-- A driver that has no more faults serves every statement.
module _ {ℓ} {A B : Type 0} (f : Store → A × Store) (k : A → M B) (s : Store)
    (P : Result B × Store → Type ℓ) where
  pub quiet_then :
      s.faults ≡ [] → P (k (f (called s)).0 (f (called s)).1) → P ((statement f >>= k) s)
  unfolding statement
  quiet_then q served = let e : fails s.faults ≡ false = rw q in rw e served

-- The same for any first step: its outcome, and the store that it leaves.
module _ {ℓ} {A B : Type 0} (m : M A) (k : A → M B) (s : Store)
    (P : Result B × Store → Type ℓ) where
  pub bind_cases :
      ((e : Error) (t : Store) → m s ≡ (err e, t) → P (err e, t))
      → ((a : A) (t : Store) → m s ≡ (ok a, t) → P (k a t))
      → P ((m >>= k) s)
  bind_cases failed done = split (m s) refl
    where
      split : (r : Result A × Store) → m s ≡ r → P (next k r)
      split (ok a, t) e = done a t e
      split (err x, t) e = failed x t e

module _ {ℓ} {A : Type 0} (m : M A) (s : Store) (P : Result A × Store → Type ℓ) where
  pub transaction_cases :
      ((e : Error) (t : Store) → m s ≡ (err e, t) → P (err e, record s { faults = t.faults }))
      → ((a : A) (t : Store) → m s ≡ (ok a, t) → P (ok a, t))
      → P (in_transaction m s)
  unfolding in_transaction
  transaction_cases failed done = split (m s) refl
    where
      split : (r : Result A × Store) → m s ≡ r → P (settle s r)
      split (ok a, t) e = done a t e
      split (err x, t) e = failed x t e
