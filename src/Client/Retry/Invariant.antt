-- ===== src/Client/Retry/Invariant.antt =====
-- What each attempt keeps, the transfer keeps.
use dark_stream.Client.Retry.Bounds.{retry_proper, Closes, state_before}
use dark_stream.Client.Retry.{
  unexpected, cancelled, exhausted, not_retryable, succeeded, Ending, retry, Failure,
}
use dark_stream.Common.{zero, subst, ap, suc, ◌≡◌, ℕ, none, Option, Bool, ◌-◌}

-- An invariant of the attempts is one of the transfer, and a success is that of the last attempt.
module _ {S : Type 0} (stops : Failure → Bool) (cancels : ℕ → Bool)
    (run : ℕ → S → Option Failure × S) (Inv : S → Type 0) (Good : S → Type 0)
    (keeps : (k : ℕ) (s : S)
      → Inv s
      → Inv (run k s).1 × ((run k s).0 ≡ none → Good (run k s).1)) where
  pub state_before-Inv : (s : S) → Inv s → (k : ℕ) → Inv (state_before stops cancels run k s)
  state_before-Inv s h zero = h
  state_before-Inv s h (suc k) = (keeps k _ (state_before-Inv s h k)).0

  pub left : (n : ℕ) (s t : S) → Inv s → (run n s).1 ≡ t → Inv t
  left n s t h e = subst Inv e (keeps n s h).0

  pub Closes-Inv :
      (e : Ending) (n m : ℕ) (s t : S)
      → Inv s
      → Closes stops cancels run e (run n s) t m
      → Inv t × (e ≡ succeeded → Good t)
  Closes-Inv succeeded n m s t h c = (
    left n s t h (ap (λ p. p.1) c),
    λ _. subst Good (ap (λ p. p.1) c) ((keeps n s h).1 (ap (λ p. p.0) c)),
  )
  Closes-Inv (not_retryable f) n m s t h c = (left n s t h (ap (λ p. p.1) c.0), λ e. cc)
  Closes-Inv (exhausted f) n m s t h c = (left n s t h (ap (λ p. p.1) c.0), λ e. cc)
  Closes-Inv cancelled n m s t h c = (left n s t h (ap (λ p. p.1) c.1), λ e. cc)
  Closes-Inv unexpected n m s t h c = absurd c

  pub retry-Inv :
      (s : S)
      → Inv s
      → Inv (retry stops cancels run s).state
        × ((retry stops cancels run s).ending ≡ succeeded → Good (retry stops cancels run s).state)
  retry-Inv s h =
      let p = retry_proper stops cancels run s in
      Closes-Inv _ ((retry stops cancels run s).attempts - 1) _ _ _ (state_before-Inv s h _)
        p.closes
