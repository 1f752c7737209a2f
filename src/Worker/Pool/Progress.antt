-- ===== src/Worker/Pool/Progress.antt =====
-- The pool does not get stuck.
use dark_stream.Worker.Pool.Bounds.{Reachable-Inv}
use dark_stream.Common.{
  ◌∙◌, ap, Bool, ◌⊎◌, ◌≡◌, ◌≢◌, ℕ, zero, true, suc, some, refl, ltb, inr, inl, arith, ◌<◌,
}
use dark_stream.Worker.Pool.{
  when, Pool, Action, act, acquire, pass_limiter, no_job, wake, begin, finish, release, cancel,
  Reachable,
}

-- All loops have returned and no job is left.
abbrev pub AtRest : ℕ → Pool → Type 0
AtRest concurrency p =
    (p.stopped ≡ concurrency) × (p.slots ≡ 0) × (p.launched ≡ 0) × (p.active ≡ 0) × (p.leaving ≡ 0)

module _ (concurrency : ℕ) where
  -- A loop or a goroutine has a step to take; that the pool is told to stop is none.
  abbrev pub CanGoOn : Pool → Type 0
  CanGoOn p = (a : Action) × (q : Pool) × (a ≢ cancel) × (act concurrency a p ≡ some q)

  positive : (n : ℕ) → (n ≡ 0) ⊎ (ltb 0 n ≡ true)
  positive zero = inl refl
  positive (suc n) = inr (ground arith)

  goes_on :
      (a : Action) (p q : Pool) (b : Bool)
      → a ≢ cancel
      → act concurrency a p ≡ when concurrency b q
      → b ≡ true
      → CanGoOn p
  goes_on a p q b d e k = (a, q, d, e ∙ ap (λ x. when concurrency x q) k)

  -- However the loops and the goroutines have taken turns, with a concurrency of at least one some of them can go on without being told to stop, or all
  -- loops have returned and no job is left.
  pub pool_progresses :
      0 < concurrency → (p : Pool) → Reachable concurrency p → CanGoOn p ⊎ AtRest concurrency p
  unfolding act
  pool_progresses some_loop p reached =
      let (l, h, b, c, r) = Reachable-Inv concurrency p reached in
      elim (positive p.leaving) [
        | inr e ↦ inl (goes_on release p _ _ (λ d. cc) refl e)
        | inl e₁ ↦ elim (positive p.active) [
          | inr e ↦ inl (goes_on finish p _ _ (λ d. cc) refl e)
          | inl e₂ ↦ elim (positive p.launched) [
            | inr e ↦ inl (goes_on begin p _ _ (λ d. cc) refl e)
            | inl e₃ ↦ elim (positive p.asking) [
              | inr e ↦ inl (goes_on no_job p _ _ (λ d. cc) refl e)
              | inl e₄ ↦ elim (positive p.holding) [
                | inr e ↦ inl (goes_on pass_limiter p _ _ (λ d. cc) refl e)
                | inl e₅ ↦ elim (positive p.resting) [
                  | inr e ↦ inl (goes_on wake p _ _ (λ d. cc) refl e)
                  | inl e₆ ↦ elim (positive p.waiting) [
                    | inr e ↦
                        let free : ltb p.slots concurrency ≡ true = ground arith in
                        inl (goes_on acquire p _ _ (λ d. cc) refl (ground arith))
                    | inl e₇ ↦ inr (omega arith, omega arith, e₃, e₂, e₁)
                  ]
                ]
              ]
            ]
          ]
        ]
      ]
