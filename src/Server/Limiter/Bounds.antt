-- ===== src/Server/Limiter/Bounds.antt =====
-- What an address may still spend at the limiter, and that its cleanup changes nothing.
use dark_stream.Common.{
  subst, ap, ℕ, suc, ◌+◌, ◌-◌, ◌*◌, ◌/◌, min, ◌≤◌, ◌<◌, ◌≡◌, refl, sym, Bool, true, false, List, [],
  ◌∷◌, Option, none, some, String, if◌then◌else◌, ltb, str_eq, str_eq-true, eq_iff, All, arith,
  Bool-cases, inl, inr,
}
use native.Mathlib.Nat.{le-div_iff_mul-le, div-mul-le_self, pos_of_div-pos}
use dark_stream.Server.Limiter.{
  Bucket, Buckets, tokens_to_add, refill, take_token, allow_bucket, find_bucket, set_bucket, allow,
  is_idle, request_limit, request_rate,
}

pub find_bucket-set_bucket :
    (ip k : String) (b : Bucket) (m : Buckets)
    → find_bucket ip (set_bucket k b m) ≡ (if str_eq k ip then some b else find_bucket ip m)
unfolding find_bucket set_bucket
find_bucket-set_bucket ip k b [] = refl
find_bucket-set_bucket ip k b (e ∷ m) = elim (Bool-cases (str_eq e.0 k)) [
  | inl at ↦
      let same : str_eq e.0 ip ≡ str_eq k ip = ap (λ x. str_eq x ip) (str_eq-true e.0 k at) in
      rw at (ground (arith, same))
  | inr past ↦ rw past (
      ground (
        arith,
        find_bucket-set_bucket ip k b m,
        str_eq-true e.0 ip,
        str_eq-true k ip,
        eq_iff e.0 k,
      ))
]

pub floor_add : (a b r : ℕ) → 0 < r → a / r + b / r ≤ (a + b) / r
floor_add a b r h =
    let u : a / r * r ≤ a = div-mul-le_self a r in
    let v : b / r * r ≤ b = div-mul-le_self b r in
    let w : (a / r + b / r) * r ≤ a + b = omega arith in (le-div_iff_mul-le h).1 w

-- How many requests of `ip` are let through.
unfoldable pub admitted : String → ℕ → ℕ → Buckets → List (String × ℕ) → ℕ
admitted ip max rate m [] = 0
admitted ip max rate m (q ∷ qs) =
    let r = allow q.0 max rate q.1 m in
    let rest = admitted ip max rate r.1 qs in
    if str_eq q.0 ip then (if r.0 then suc rest else rest) else rest

module _ (max rate from until : ℕ) where
  -- What an address may still spend.
  abbrev pub credit : Option Bucket → ℕ
  credit none = max + (until - from) / rate
  credit (some b) = b.tokens + (until - b.last_refill) / rate

  abbrev pub spent : Bool → ℕ
  spent true = 1
  spent false = 0

  pub take_token-credit :
      (b : Bucket) → spent (take_token b).0 + credit (some (take_token b).1) ≤ credit (some b)
  take_token-credit b = ground arith

  refill-credit :
      0 < rate
      → (now : ℕ) (b : Bucket) → now ≤ until
      → credit (some (refill max rate now b)) ≤ credit (some b)
  unfolding refill
  refill-credit positive now b h =
      let f = floor_add (now - b.last_refill) (until - now) rate positive in
      elim (Bool-cases (ltb 0 (tokens_to_add rate now b))) [
        | inl e ↦ rw e (added f (ground arith))
        | inr e ↦ rw e (omega arith)
      ]
    where
      added :
          (now - b.last_refill) / rate + (until - now) / rate
            ≤ (now - b.last_refill + (until - now)) / rate
          → 0 < (now - b.last_refill) / rate
          → min (b.tokens + (now - b.last_refill) / rate) max + (until - now) / rate
            ≤ b.tokens + (until - b.last_refill) / rate
      added f later =
          let p : 0 < now - b.last_refill = pos_of_div-pos rate later in
          let e : now - b.last_refill + (until - now) ≡ until - b.last_refill = omega arith in
          let g : (now - b.last_refill) / rate + (until - now) / rate
              ≤ (until - b.last_refill) / rate =
            rw (sym e) f in
          omega arith

  pub allow_bucket-credit :
      0 < max
      → 0 < rate
      → (now : ℕ) (o : Option Bucket) → from ≤ now
      → now ≤ until
      → spent (allow_bucket max rate now o).0 + credit (some (allow_bucket max rate now o).1)
        ≤ credit o
  unfolding allow_bucket
  allow_bucket-credit room positive now none h k =
      let f = floor_add (until - now) (now - from) rate positive in
      let e : until - now + (now - from) ≡ until - from = omega arith in
      let g : (until - now) / rate + (now - from) / rate ≤ (until - from) / rate = rw (sym e) f in
      omega arith
  allow_bucket-credit room positive now (some b) h k =
      let f = refill-credit positive now b k in
      let g = take_token-credit (refill max rate now b) in omega arith

  pub counted : (b : Bool) (n : ℕ) → (if b then suc n else n) ≡ spent b + n
  counted true n = omega arith
  counted false n = omega arith

  abbrev pub InWindow : String × ℕ → Type 0
  InWindow q = (from ≤ q.1) × (q.1 ≤ until)

  pub admitted-credit :
      0 < max
      → 0 < rate
      → (ip : String) (m : Buckets) (qs : List (String × ℕ)) → All InWindow qs
      → admitted ip max rate m qs ≤ credit (find_bucket ip m)
  unfolding admitted allow
  admitted-credit room positive ip m [] h = omega arith
  admitted-credit room positive ip m (q ∷ qs) h =
      let r = allow_bucket max rate q.1 (find_bucket q.0 m) in
      let ih = admitted-credit room positive ip (set_bucket q.0 r.1 m) qs h.1 in
      let found = find_bucket-set_bucket ip q.0 r.1 m in
      elim (Bool-cases (str_eq q.0 ip)) [
        | inl same ↦
            (let step = allow_bucket-credit room positive q.1 (find_bucket q.0 m) h.0.0 h.0.1 in
              let at_same : find_bucket ip (set_bucket q.0 r.1 m) ≡ some r.1 = rw same at found in
              let left : admitted ip max rate (set_bucket q.0 r.1 m) qs ≤ credit (some r.1) =
                subst (λ x. admitted ip max rate (set_bucket q.0 r.1 m) qs ≤ credit x) at_same ih in
              let here : credit (find_bucket q.0 m) ≡ credit (find_bucket ip m) =
                ap (λ x. credit (find_bucket x m)) (str_eq-true q.0 ip same) in
              let count = counted r.0 (admitted ip max rate (set_bucket q.0 r.1 m) qs) in
              rw same (omega arith))
        | inr other ↦
            (let at_other : find_bucket ip (set_bucket q.0 r.1 m) ≡ find_bucket ip m =
                rw other at found in
              let left : admitted ip max rate (set_bucket q.0 r.1 m) qs
                  ≤ credit (find_bucket ip m) =
                subst (λ x. admitted ip max rate (set_bucket q.0 r.1 m) qs ≤ credit x) at_other
                  ih in
              rw other left)
      ]

-- With the limit and rate of the middleware, a bucket that the cleanup removes makes no difference to any
-- request from then on.
pub cleanup_forgets_nothing :
    (swept now : ℕ) (b : Bucket)
    → is_idle swept b ≡ true
    → swept ≤ now
    → allow_bucket request_limit request_rate now (some b)
      ≡ allow_bucket request_limit request_rate now none
unfolding allow_bucket refill
cleanup_forgets_nothing swept now b idle later =
    let enough : 100 ≤ tokens_to_add request_rate now b = ground arith in
    let some_added : ltb 0 (tokens_to_add request_rate now b) ≡ true = ground arith in
    let full : min (b.tokens + tokens_to_add request_rate now b) 100 ≡ 100 = omega arith in
    rw some_added (rw full refl)
