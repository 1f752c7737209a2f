-- ===== src/Server/Limiter/Windows.antt =====
-- How many requests of one address the limiter lets through in a window of time.
use native.Mathlib.Nat.{lt-div-mul-add, div-lt_iff_lt-mul}
use dark_stream.Server.Limiter.Bounds.{
  counted, admitted-credit, take_token-credit, allow_bucket-credit, floor_add,
  find_bucket-set_bucket, admitted, spent, credit, InWindow,
}
use dark_stream.Common.{
  ◌*◌, ◌≤◌, ◌≡◌, ◌∷◌, ℕ, sym, subst, str_eq-true, str_eq, some, not, none, ltb, inr, inl,
  filter-All, arith, [], String, Option, List, Bool-cases, All, ◌<◌, ◌/◌, ◌-◌, ◌+◌,
}
use dark_stream.Server.Limiter.{
  Bucket, Buckets, tokens_to_add, refill, take_token, allow_bucket, find_bucket, set_bucket, allow,
  is_idle, cleanup,
}

-- What a limiter has met: a request of an address, or a tick of the cleanup.
pub data Use : Type 0 where
  asked : String → ℕ → Use
  swept : ℕ → Use

unfoldable pub after_uses : ℕ → ℕ → List Use → Buckets → Buckets
after_uses max rate [] m = m
after_uses max rate (asked ip now ∷ us) m = after_uses max rate us (allow ip max rate now m).1
after_uses max rate (swept now ∷ us) m = after_uses max rate us (cleanup now m)

module _ (max : ℕ) where
  -- A bucket that is kept is never full: a request has just been taken off it.
  abbrev IsOpen : String × Bucket → Type 0
  IsOpen e = e.1.tokens < max

  abbrev AllOpen : Option Bucket → Type 0
  AllOpen none = Unit
  AllOpen (some b) = b.tokens < max

  found-AllOpen : (ip : String) (m : Buckets) → All IsOpen m → AllOpen (find_bucket ip m)
  unfolding find_bucket
  found-AllOpen ip [] h = tt
  found-AllOpen ip (e ∷ m) h = elim (Bool-cases (str_eq e.0 ip)) [
    | inl at ↦ rw at h.0
    | inr past ↦ rw past (found-AllOpen ip m h.1)
  ]

  module _ (rate : ℕ) (room : 0 < max) where
    refill-le : (now : ℕ) (b : Bucket) → b.tokens < max → (refill max rate now b).tokens ≤ max
    unfolding refill
    refill-le now b h = elim (Bool-cases (ltb 0 (tokens_to_add rate now b))) [
      | inl e ↦ rw e (omega arith)
      | inr e ↦ rw e (omega arith)
    ]

    take_token-lt : (b : Bucket) → b.tokens ≤ max → (take_token b).1.tokens < max
    take_token-lt b h = ground arith

    allow_bucket-lt :
        (now : ℕ) (o : Option Bucket) → AllOpen o → (allow_bucket max rate now o).1.tokens < max
    unfolding allow_bucket
    allow_bucket-lt now none h = omega arith
    allow_bucket-lt now (some b) h = take_token-lt (refill max rate now b) (refill-le now b h)

    set_bucket-IsOpen :
        (ip : String) (b : Bucket) (m : Buckets)
        → b.tokens < max
        → All IsOpen m
        → All IsOpen (set_bucket ip b m)
    unfolding set_bucket
    set_bucket-IsOpen ip b [] h k = (h, tt)
    set_bucket-IsOpen ip b (e ∷ m) h k = elim (Bool-cases (str_eq e.0 ip)) [
      | inl at ↦ rw at (h, k.1)
      | inr past ↦ rw past (k.0, set_bucket-IsOpen ip b m h k.1)
    ]

    after_uses-IsOpen :
        (us : List Use) (m : Buckets) → All IsOpen m → All IsOpen (after_uses max rate us m)
    unfolding after_uses allow cleanup
    after_uses-IsOpen [] m h = h
    after_uses-IsOpen (asked ip now ∷ us) m h =
        after_uses-IsOpen us _ (
          set_bucket-IsOpen ip _ m (allow_bucket-lt now (find_bucket ip m) (found-AllOpen ip m h))
            h)
    after_uses-IsOpen (swept now ∷ us) m h =
        after_uses-IsOpen us _ (filter-All IsOpen (λ e. not (is_idle now e.1)) m h)

module _ (max rate from until : ℕ) (room : 0 < max) (positive : 0 < rate) where
  abbrev budget : ℕ
  budget = max + (until - from) / rate

  -- However long the bucket has not been used, what it still gives fits into the window.
  refilled-budget :
      (now : ℕ) (b : Bucket)
      → from ≤ now
      → now ≤ until
      → b.tokens < max
      → credit max rate from until (some (refill max rate now b)) ≤ budget
  unfolding refill
  refilled-budget now b h k open_still = elim (Bool-cases (ltb 0 (tokens_to_add rate now b))) [
    | inl e ↦
        let f = floor_add (until - now) (now - from) rate positive in
        let g : until - now + (now - from) ≡ until - from = omega arith in
        let w : (until - now) / rate + (now - from) / rate ≤ (until - from) / rate = rw (sym g) f in
        rw e (omega arith)
    | inr e ↦
        let z : (now - b.last_refill) / rate ≡ 0 = ground arith in
        let w = next_token b.last_refill now h z in rw e (omega arith)
  ]
    where
      next_token :
          (last now : ℕ)
          → from ≤ now
          → (now - last) / rate ≡ 0
          → (until - last) / rate ≤ (until - from) / rate + 1
      next_token last now h z =
          let a : now - last < (now - last) / rate * rate + rate = lt-div-mul-add positive in
          let b : until - from < (until - from) / rate * rate + rate = lt-div-mul-add positive in
          let c : (now - last) / rate * rate ≡ 0 = rw z (omega arith) in
          let d : until - last < ((until - from) / rate + 2) * rate = omega arith in
          let e : (until - last) / rate < (until - from) / rate + 2 =
            (div-lt_iff_lt-mul positive).1 d in
          omega arith

  step-budget :
      (now : ℕ) (o : Option Bucket)
      → from ≤ now
      → now ≤ until
      → AllOpen max o
      → spent max rate from until (allow_bucket max rate now o).0
          + credit max rate from until (some (allow_bucket max rate now o).1)
        ≤ budget
  unfolding allow_bucket
  step-budget now none h k open_still =
      allow_bucket-credit max rate from until room positive now none h k
  step-budget now (some b) h k open_still =
      let f = refilled-budget now b h k open_still in
      let g = take_token-credit max rate from until (refill max rate now b) in omega arith

  admitted-budget :
      (ip : String) (m : Buckets) (qs : List (String × ℕ))
      → All (InWindow max rate from until) qs
      → AllOpen max (find_bucket ip m)
      → admitted ip max rate m qs ≤ budget
  unfolding admitted allow
  admitted-budget ip m [] h open_still = omega arith
  admitted-budget ip m (q ∷ qs) h open_still =
      let r = allow_bucket max rate q.1 (find_bucket q.0 m) in
      let found = find_bucket-set_bucket ip q.0 r.1 m in
      elim (Bool-cases (str_eq q.0 ip)) [
        | inl same ↦
            (let rest =
                admitted-credit max rate from until room positive ip (set_bucket q.0 r.1 m) qs
                  h.1 in
              let at_same : find_bucket ip (set_bucket q.0 r.1 m) ≡ some r.1 = rw same at found in
              let left : admitted ip max rate (set_bucket q.0 r.1 m) qs
                  ≤ credit max rate from until (some r.1) =
                subst
                  (λ x.
                    admitted ip max rate (set_bucket q.0 r.1 m) qs ≤ credit max rate from until x)
                  at_same rest in
              let own : AllOpen max (find_bucket q.0 m) =
                subst (λ x. AllOpen max (find_bucket x m)) (sym (str_eq-true q.0 ip same))
                  open_still in
              let step = step-budget q.1 (find_bucket q.0 m) h.0.0 h.0.1 own in
              let count =
                counted max rate from until r.0 (admitted ip max rate (set_bucket q.0 r.1 m) qs) in
              rw same (omega arith))
        | inr other ↦
            (let at_other : find_bucket ip (set_bucket q.0 r.1 m) ≡ find_bucket ip m =
                rw other at found in
              rw other (
                admitted-budget ip (set_bucket q.0 r.1 m) qs h.1
                  (subst (AllOpen max) (sym at_other) open_still)))
      ]

-- With a positive limit and refill time, whatever requests and ticks of the cleanup came before, in any
-- window of time without such a tick and whatever other addresses ask, at most `max` requests of one
-- address and one more for each `rate` nanoseconds of the window are let through.
pub allow_limits :
    (max rate from until : ℕ)
    → 0 < max
    → 0 < rate
    → (ip : String) (earlier : List Use) (qs : List (String × ℕ))
    → All (InWindow max rate from until) qs
    → admitted ip max rate (after_uses max rate earlier []) qs ≤ max + (until - from) / rate
allow_limits max rate from until room positive ip earlier qs h =
    let m = after_uses max rate earlier [] in
    admitted-budget max rate from until room positive ip m qs h
      (found-AllOpen max ip m (after_uses-IsOpen max rate room earlier [] tt))
