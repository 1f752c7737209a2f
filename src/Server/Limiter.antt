-- ===== src/Server/Limiter.antt =====
-- http.go: the token buckets of `rateLimiter`, one per address. Times and `rate`, the time in which
-- a token comes back, are in nanoseconds. A first request leaves `max - 1` tokens, 0 for a
-- `max` of 0: Go's -1 there is never seen, since only a positive number of tokens matters and the refill is
-- capped at `max`.
pub mod Bounds
pub mod Windows
use dark_stream.Common.{
  ℕ, zero, suc, ◌+◌, ◌-◌, ◌*◌, ◌/◌, min, Bool, true, false, not, List, [], ◌∷◌, Option, none, some,
  String, if◌then◌else◌, ltb, str_eq, filter,
}
use dark_stream.Models.{minute}

pub record Bucket : Type 0 where
  pub tokens : ℕ
  pub last_refill : ℕ

abbrev pub Buckets : Type 0
Buckets = List (String × Bucket)

abbrev pub tokens_to_add : ℕ → ℕ → Bucket → ℕ
tokens_to_add rate now b = (now - b.last_refill) / rate

unfoldable pub refill : ℕ → ℕ → ℕ → Bucket → Bucket
refill max rate now b =
    if ltb 0 (tokens_to_add rate now b)
    then record { tokens = min (b.tokens + tokens_to_add rate now b) max; last_refill = now }
    else b

abbrev pub take_token : Bucket → Bool × Bucket
take_token b = if ltb 0 b.tokens then (true, record b { tokens = b.tokens - 1 }) else (false, b)

-- The decision on a request, and the bucket afterwards.
unfoldable pub allow_bucket : ℕ → ℕ → ℕ → Option Bucket → Bool × Bucket
allow_bucket max rate now none = (true, record { tokens = max - 1; last_refill = now })
allow_bucket max rate now (some b) = take_token (refill max rate now b)

unfoldable pub find_bucket : String → Buckets → Option Bucket
find_bucket ip [] = none
find_bucket ip (e ∷ m) = let rest = find_bucket ip m in if str_eq e.0 ip then some e.1 else rest

unfoldable pub set_bucket : String → Bucket → Buckets → Buckets
set_bucket ip b [] = (ip, b) ∷ []
set_bucket ip b (e ∷ m) =
    let rest = set_bucket ip b m in if str_eq e.0 ip then (ip, b) ∷ m else e ∷ rest

unfoldable pub allow : String → ℕ → ℕ → ℕ → Buckets → Bool × Buckets
allow ip max rate now m =
    let r = allow_bucket max rate now (find_bucket ip m) in (r.0, set_bucket ip r.1 m)

-- `now.Sub(state.lastRefill) > 10*time.Minute`.
abbrev pub is_idle : ℕ → Bucket → Bool
is_idle now b = ltb (b.last_refill + 10 * minute) now

unfoldable pub cleanup : ℕ → Buckets → Buckets
cleanup now m = filter (λ e. not (is_idle now e.1)) m

-- The limit that `rateLimitMiddleware` sets: 100 tokens, one back in every 600 milliseconds.
abbrev pub request_limit : ℕ
request_limit = 100

abbrev pub request_rate : ℕ
request_rate = minute / 100
