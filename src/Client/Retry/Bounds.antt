-- ===== src/Client/Retry/Bounds.antt =====
-- The loop makes three attempts at most, pauses longer before each, and ends as its last attempt does.
use dark_stream.Models.{second}
use dark_stream.Client.Retry.{
  ended, after_attempt, retry_from, add_attempt, retry, add_pause, unexpected, cancelled, succeeded,
  exhausted, not_retryable, max_retries, Report, Ending, Failure,
}
use dark_stream.Common.{
  subst, ap, ◌==◌, refl, inr, inl, arith, Bool-cases, ◌++◌, ◌≤◌, ◌≡◌, ◌∷◌, ℕ, zero, true, take, suc,
  some, none, false, [], Option, Bool, ◌<◌, ◌-◌, ◌*◌,
}

module _ {S : Type 0} (stops : Failure → Bool) (cancels : ℕ → Bool)
    (run : ℕ → S → Option Failure × S) where
  -- The state that attempt `k` starts from.
  abbrev pub state_before : ℕ → S → S
  state_before zero s = s
  state_before (suc k) s = (run k (state_before k s)).1

  -- What the ending says of the last attempt, of which there were `n`.
  abbrev pub Closes : Ending → Option Failure × S → S → ℕ → Type 0
  Closes succeeded last s n = last ≡ (none, s)
  Closes (not_retryable e) last s n = (last ≡ (some e, s)) × (stops e ≡ true)
  Closes (exhausted e) last s n = (last ≡ (some e, s)) × (stops e ≡ false) × (n ≡ max_retries)
  Closes cancelled last s n =
      (e : Failure) × (last ≡ (some e, s)) × (stops e ≡ false) × (cancels n ≡ true)
  Closes unexpected last s n = ⊥

  -- An attempt that is followed by another.
  abbrev pub GoesOn : Option Failure × S → Type 0
  GoesOn x = (e : Failure) × (x.0 ≡ some e) × (stops e ≡ false)

  pub record IsProper (s : S) (r : Report S) : Type 0 where
    pub some_attempt : 0 < r.attempts
    pub few_attempts : r.attempts ≤ max_retries
    pub pauses : r.slept ≡ take (r.attempts - 1) (2 * second ∷ 4 * second ∷ [])
    pub earlier : (k : ℕ) → suc k < r.attempts → GoesOn (run k (state_before k s))
    pub closes :
        Closes r.ending (run (r.attempts - 1) (state_before (r.attempts - 1) s)) r.state r.attempts

  abbrev more_than : ℕ → ℕ → ℕ
  more_than zero n = n
  more_than (suc k) n = suc (more_than k n)

  -- A report of the rounds from attempt `k` on, with the `k` attempts before them.
  abbrev after : ℕ → Report S → Report S
  after k r = record r {
    attempts = more_than k r.attempts;
    slept = take (k - 1) (2 * second ∷ 4 * second ∷ []) ++ r.slept;
  }

  module _ (s : S) where
    abbrev Went : ℕ → Type 0
    Went k = GoesOn (run k (state_before k s))

    abbrev before : ℕ → Option Failure × S → Report S → Report S
    before k x more = after k (
        add_pause stops cancels run k
          (add_attempt stops cancels run (after_attempt stops cancels run k more x)))

    none_before : (k : ℕ) → suc k < 1 → Went k
    none_before k lt = absurd (omega arith)

    one_before : Went 0 → (k : ℕ) → suc k < 2 → Went k
    one_before g zero lt = g
    one_before g (suc k) lt = absurd (omega arith)

    two_before : Went 0 → Went 1 → (k : ℕ) → suc k < 3 → Went k
    two_before g h zero lt = g
    two_before g h (suc zero) lt = h
    two_before g h (suc (suc k)) lt = absurd (omega arith)

    last_attempt :
        (more : Report S) (x : Option Failure × S)
        → Went 0
        → Went 1
        → run 2 (state_before 2 s) ≡ x
        → IsProper s (before 2 x more)
    last_attempt more (none, t) g h e = record {
      some_attempt = omega arith;
      few_attempts = omega arith;
      pauses = refl;
      earlier = two_before g h;
      closes = e;
    }
    last_attempt more (some f, t) g h e = elim (Bool-cases (stops f)) [
      | inl stop ↦ rw stop (record {
        some_attempt = omega arith;
        few_attempts = omega arith;
        pauses = refl;
        earlier = two_before g h;
        closes = (e, stop);
      })
      | inr go ↦ rw go (record {
        some_attempt = omega arith;
        few_attempts = omega arith;
        pauses = refl;
        earlier = two_before g h;
        closes = (e, go, refl);
      })
    ]

    pair_eq :
        (k : ℕ) (f : Failure)
        → (run k (state_before k s)).0 ≡ some f
        → run k (state_before k s) ≡ (some f, state_before (suc k) s)
    pair_eq k f h = cc

    -- One round that a cancelled pause may prevent.
    paused :
        (k rounds : ℕ)
        → (cancels k ≡ true
            → IsProper s (after k (ended stops cancels run cancelled (state_before k s))))
        → ((x : Option Failure × S)
            → run k (state_before k s) ≡ x
            → IsProper s (before k x (retry_from stops cancels run rounds (suc k) x.1)))
        → (k == 0) ≡ false
        → IsProper s (after k (retry_from stops cancels run (suc rounds) k (state_before k s)))
    unfolding retry_from
    paused k rounds stop go later = elim (Bool-cases (cancels k)) [
      | inl c ↦ rw (later, c) (stop c)
      | inr c ↦ rw (later, c) (rw later at (go (run k (state_before k s)) refl))
    ]

    first_cancelled :
        Went 0
        → cancels 1 ≡ true
        → IsProper s (after 1 (ended stops cancels run cancelled (state_before 1 s)))
    first_cancelled (f, h, go) c = record {
      some_attempt = omega arith;
      few_attempts = omega arith;
      pauses = refl;
      earlier = none_before;
      closes = (f, pair_eq 0 f h, go, c);
    }

    second_cancelled :
        Went 0
        → Went 1
        → cancels 2 ≡ true
        → IsProper s (after 2 (ended stops cancels run cancelled (state_before 2 s)))
    second_cancelled g (f, h, go) c = record {
      some_attempt = omega arith;
      few_attempts = omega arith;
      pauses = refl;
      earlier = one_before g;
      closes = (f, pair_eq 1 f h, go, c);
    }

    after_second :
        Went 0 → Went 1 → IsProper s (after 2 (retry_from stops cancels run 1 2 (state_before 2 s)))
    after_second g h =
        paused 2 0 (second_cancelled g h)
          (λ x e. last_attempt (retry_from stops cancels run 0 3 x.1) x g h e) refl

    from_one :
        (x : Option Failure × S)
        → Went 0
        → run 1 (state_before 1 s) ≡ x
        → IsProper s (before 1 x (retry_from stops cancels run 1 2 x.1))
    from_one (none, t) g e = record {
      some_attempt = omega arith;
      few_attempts = omega arith;
      pauses = refl;
      earlier = one_before g;
      closes = e;
    }
    from_one (some f, t) g e = elim (Bool-cases (stops f)) [
      | inl stop ↦ rw stop (record {
        some_attempt = omega arith;
        few_attempts = omega arith;
        pauses = refl;
        earlier = one_before g;
        closes = (e, stop);
      })
      | inr go ↦
          let went : Went 1 = (f, ap (λ p. p.0) e, go) in
          rw go (
            subst (λ u. IsProper s (after 2 (retry_from stops cancels run 1 2 u))) (ap (λ p. p.1) e)
              (after_second g went))
    ]

    after_first :
        Went 0 → IsProper s (after 1 (retry_from stops cancels run 2 1 (state_before 1 s)))
    after_first g = paused 1 1 (first_cancelled g) (λ x e. from_one x g e) refl

    from_start :
        (x : Option Failure × S)
        → run 0 s ≡ x
        → IsProper s (before 0 x (retry_from stops cancels run 2 1 x.1))
    from_start (none, t) e = record {
      some_attempt = omega arith;
      few_attempts = omega arith;
      pauses = refl;
      earlier = none_before;
      closes = e;
    }
    from_start (some f, t) e = elim (Bool-cases (stops f)) [
      | inl stop ↦ rw stop (record {
        some_attempt = omega arith;
        few_attempts = omega arith;
        pauses = refl;
        earlier = none_before;
        closes = (e, stop);
      })
      | inr go ↦
          let went : Went 0 = (f, ap (λ p. p.0) e, go) in
          rw go (
            subst (λ u. IsProper s (after 1 (retry_from stops cancels run 2 1 u))) (ap (λ p. p.1) e)
              (after_first went))
    ]

    pub retry_proper : IsProper s (retry stops cancels run s)
    unfolding retry
    retry_proper = from_start (run 0 s) refl
