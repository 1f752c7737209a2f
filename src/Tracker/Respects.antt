-- ===== src/Tracker/Respects.antt =====
-- Methods that keep to a relation between the store before and the store after. The relation is
-- one that says nothing of the other tables, composes, and may
-- speak of a driver that has no more faults.
use dark_stream.Common.{[], ◌≡◌, refl, Bool, true, false, Bool-cases, inl, inr, if◌then◌else◌}
use dark_stream.Tracker.{
  Store, Result, ok, err, Error, M, next, ◌>>=◌, pure, fail, try, statement, query, exec, reading,
  writing, fails,
}
use dark_stream.Tracker.Outcomes.{called}

pub record Respects (R : Store → Store → Type 0) {A : Type 0} (m : M A) : Type 0 where
  pub apply : (s : Store) → R s (m s).1

-- The relations between stores that the rules below are for.
pub record IsFrame (R : Store → Store → Type 0) : Type 0 where
  pub same : (s t : Store) → t.jobs ≡ s.jobs → (s.faults ≡ [] → t.faults ≡ []) → R s t
  pub trans : (s t u : Store) → R s t → R t u → R s u

quiet_called : (s : Store) → s.faults ≡ [] → (called s).faults ≡ []
quiet_called s q = rw q

module _ {R : Store → Store → Type 0} (frame : IsFrame R) where
  pub pure-Respects : {A : Type 0} (a : A) → Respects R (pure a)
  pure-Respects a = record { apply = λ s. frame.same s s refl (λ q. q) }

  pub fail-Respects : (A : Type 0) (e : Error) → Respects R (fail {A = A} e)
  fail-Respects A e = record { apply = λ s. frame.same s s refl (λ q. q) }

  pub >>=-Respects :
      {A B : Type 0} (m : M A) (f : A → M B)
      → Respects R m
      → ((a : A) → Respects R (f a))
      → Respects R (m >>= f)
  >>=-Respects {A} {B} m f first after = record {
    apply = λ s. split s (m s).0 (m s).1 (first.apply s);
  }
    where
      split : (s : Store) (r : Result A) (t : Store) → R s t → R s (next f (r, t)).1
      split s (ok a) t h = frame.trans s t _ h ((after a).apply t)
      split s (err e) t h = h

  pub statement-Respects :
      {A : Type 0} (f : Store → A × Store) → ((s : Store) → R s (f s).1) → Respects R (statement f)
  unfolding statement
  statement-Respects f h = record {
    apply = λ s. elim (Bool-cases (fails s.faults)) [
      | inl e ↦ rw e (frame.same s (called s) refl (quiet_called s))
      | inr e ↦ rw e (
          frame.trans s (called s) _ (frame.same s (called s) refl (quiet_called s)) (h (called s)))
    ];
  }

  pub query-Respects : {A : Type 0} (f : Store → A) → Respects R (query f)
  query-Respects f = statement-Respects (reading f) (λ s. frame.same s s refl (λ q. q))

  -- A statement on the other tables.
  pub exec-Respects :
      (f : Store → Store)
      → ((s : Store) → (f s).jobs ≡ s.jobs)
      → ((s : Store) → (f s).faults ≡ s.faults)
      → Respects R (exec f)
  exec-Respects f h k =
      statement-Respects (writing f) (λ s. frame.same s (f s) (h s) (λ q. rw (k s) q))

  pub try-Respects : {A : Type 0} (m : M A) → Respects R m → Respects R (try m)
  try-Respects m h = record { apply = h.apply }

  pub try_bind-Respects :
      {A B : Type 0} (m : M A) (f : Result A → M B)
      → Respects R m
      → ((r : Result A) → Respects R (f r))
      → Respects R (try m >>= f)
  try_bind-Respects m f h k = >>=-Respects (try m) f (try-Respects m h) k

  pub if-Respects :
      {A : Type 0} (b : Bool) (m n : M A)
      → Respects R m
      → Respects R n
      → Respects R (if b then m else n)
  if-Respects true m n h k = h
  if-Respects false m n h k = k
