-- ===== src/Worker/Pool/Bounds.antt =====
-- The pool never works on more jobs than its concurrency.
use dark_stream.Common.{
  ◌≤◌, ◌≡◌, ℕ, true, subst, some_inj, some, refl, false, arith, Option, Bool, ◌+◌,
}
use dark_stream.Worker.Pool.{
  Pool, Action, started, when, act, acquire, leave_waiting, pass_limiter, leave_holding, no_job,
  launch, wake, leave_resting, begin, finish, release, cancel, Reachable, at_start, after,
}

-- Every loop is somewhere, the slots belong to the loops that have taken one and to the goroutines, and the counter
-- counts the jobs. Before the shutdown no loop returns.
abbrev pub Inv : ℕ → Pool → Type 0
Inv concurrency p =
    (p.waiting + p.holding + p.asking + p.resting + p.stopped ≡ concurrency)
    × (p.slots ≡ p.holding + p.asking + p.launched + p.active + p.leaving)
    × (p.slots ≤ concurrency)
    × (p.active_jobs ≡ p.active)
    × (p.cancelled ≡ false → p.stopped ≡ 0)

module _ (concurrency : ℕ) where
  Inv-started : Inv concurrency (started concurrency)
  Inv-started = (omega arith, omega arith, omega arith, refl, λ e. refl)

  abbrev Keeps : Pool → Option Pool → Type 0
  Keeps p o = (q : Pool) → o ≡ some q → Inv concurrency q

  when-Keeps :
      (b : Bool) (p q : Pool) → (b ≡ true → Inv concurrency q) → Keeps p (when concurrency b q)
  when-Keeps true p q h r e = subst (Inv concurrency) (some_inj e) (h refl)
  when-Keeps false p q h r e = absurd (ground arith)

  act-Inv : (a : Action) (p : Pool) → Inv concurrency p → Keeps p (act concurrency a p)
  unfolding act
  act-Inv acquire p (l, h, b, c, r) =
      when-Keeps _ p _
        λ e. (ground arith, ground arith, ground arith, ground arith, λ k. ground (arith, r k))
  act-Inv leave_waiting p (l, h, b, c, r) =
      when-Keeps _ p _
        λ e. (ground arith, ground arith, ground arith, ground arith, λ k. ground (arith, r k))
  act-Inv pass_limiter p (l, h, b, c, r) =
      when-Keeps _ p _
        λ e. (ground arith, ground arith, ground arith, ground arith, λ k. ground (arith, r k))
  act-Inv leave_holding p (l, h, b, c, r) =
      when-Keeps _ p _
        λ e. (ground arith, ground arith, ground arith, ground arith, λ k. ground (arith, r k))
  act-Inv no_job p (l, h, b, c, r) =
      when-Keeps _ p _
        λ e. (ground arith, ground arith, ground arith, ground arith, λ k. ground (arith, r k))
  act-Inv launch p (l, h, b, c, r) =
      when-Keeps _ p _
        λ e. (ground arith, ground arith, ground arith, ground arith, λ k. ground (arith, r k))
  act-Inv wake p (l, h, b, c, r) =
      when-Keeps _ p _
        λ e. (ground arith, ground arith, ground arith, ground arith, λ k. ground (arith, r k))
  act-Inv leave_resting p (l, h, b, c, r) =
      when-Keeps _ p _
        λ e. (ground arith, ground arith, ground arith, ground arith, λ k. ground (arith, r k))
  act-Inv begin p (l, h, b, c, r) =
      when-Keeps _ p _
        λ e. (ground arith, ground arith, ground arith, ground arith, λ k. ground (arith, r k))
  act-Inv finish p (l, h, b, c, r) =
      when-Keeps _ p _
        λ e. (ground arith, ground arith, ground arith, ground arith, λ k. ground (arith, r k))
  act-Inv release p (l, h, b, c, r) =
      when-Keeps _ p _
        λ e. (ground arith, ground arith, ground arith, ground arith, λ k. ground (arith, r k))
  act-Inv cancel p (l, h, b, c, r) =
      λ q e. subst (Inv concurrency) (some_inj e) (l, h, b, c, λ k. absurd (ground arith))

  pub Reachable-Inv : (p : Pool) → Reachable concurrency p → Inv concurrency p
  Reachable-Inv p at_start = Inv-started
  Reachable-Inv q (after a e r) = act-Inv a _ (Reachable-Inv _ r) q e

  -- However the loops and the goroutines take turns, the pool never has more jobs and requests for jobs
  -- in hand than its concurrency, and the counter in a heartbeat is the number of jobs that are worked on.
  pub pool_bounded :
      (p : Pool)
      → Reachable concurrency p
      → (p.asking + p.launched + p.active + p.leaving ≤ concurrency)
        × (p.active_jobs ≡ p.active)
        × (p.active_jobs ≤ concurrency)
  pool_bounded p reached =
      let (l, h, b, c, r) = Reachable-Inv p reached in (omega arith, c, omega arith)
