-- ===== src/Worker/Polling.antt =====
-- worker.go: `getAndUpdateBackoff`, the pause between two polls of the master. Durations are in
-- nanoseconds; the doubled pause is capped before it is stored, so that it stays below twice the cap.
use dark_stream.Common.{
  inr, ◌<◌, inl, Bool-cases, ℕ, zero, suc, ◌*◌, ◌^◌, ◌≤◌, ◌≡◌, min, Bool, true, false, ltb,
  if◌then◌else◌, ℤ, pos, negsuc, arith,
}
use dark_stream.Models.{second}

pub record Intervals : Type 0 where
  pub initial : ℤ
  pub max : ℤ

abbrev positive_or : ℕ → ℤ → ℕ
positive_or default (pos zero) = default
positive_or default (pos (suc n)) = suc n
positive_or default (negsuc _) = default

abbrev pub initial_backoff : Intervals → ℕ
initial_backoff c = positive_or (1 * second) c.initial

abbrev pub max_backoff : Intervals → ℕ
max_backoff c = positive_or (30 * second) c.max

-- The pause that is returned, and the current one afterwards.
unfoldable pub get_and_update_backoff : Intervals → Bool → ℕ → ℕ × ℕ
get_and_update_backoff c increase current =
    if increase
    then (current, if ltb (max_backoff c) (current * 2) then max_backoff c else current * 2)
    else (initial_backoff c, initial_backoff c)

-- The current pause after a success and `n` polls in a row that found no job.
unfoldable pub after_empty_polls : Intervals → ℕ → ℕ → ℕ
unfolding get_and_update_backoff
after_empty_polls c zero current = (get_and_update_backoff c false current).1
after_empty_polls c (suc n) current =
    (get_and_update_backoff c true (after_empty_polls c n current)).1

double_pow : (a n : ℕ) → a * 2 ^ suc n ≡ a * 2 ^ n * 2
double_pow a n = (let p : 2 ^ suc n ≡ 2 ^ n * 2 = omega arith in rw p (omega arith))

after_empty_polls-closed :
    (c : Intervals) (n current : ℕ)
    → initial_backoff c ≤ max_backoff c
    → after_empty_polls c n current ≡ min (initial_backoff c * 2 ^ n) (max_backoff c)
unfolding after_empty_polls get_and_update_backoff
after_empty_polls-closed c zero current h = omega arith
after_empty_polls-closed c (suc n) current h =
    let ih = after_empty_polls-closed c n current h in
    let d = double_pow (initial_backoff c) n in
    elim (Bool-cases (ltb (max_backoff c) (after_empty_polls c n current * 2))) [
      | inl e ↦
          (let f : max_backoff c < after_empty_polls c n current * 2 = ground arith in
            rw e (omega arith))
      | inr e ↦
          (let f : after_empty_polls c n current * 2 ≤ max_backoff c = ground arith in
            rw e (omega arith))
    ]

-- If the initial pause is not above the cap, then after a success the pause that the loop is given doubles with each
-- poll that finds no job until it reaches the cap: after `n` such polls the next one is given the initial pause times
-- 2 ^ n, or the cap if that is less. The pause that is kept then is that of the poll after it.
pub after_empty_polls_doubles :
    (c : Intervals) (n current : ℕ)
    → initial_backoff c ≤ max_backoff c
    → ((get_and_update_backoff c true (after_empty_polls c n current)).0
        ≡ min (initial_backoff c * 2 ^ n) (max_backoff c))
      × ((get_and_update_backoff c true (after_empty_polls c n current)).1
          ≡ min (initial_backoff c * 2 ^ suc n) (max_backoff c))
unfolding get_and_update_backoff after_empty_polls
after_empty_polls_doubles c n current h =
    (after_empty_polls-closed c n current h, after_empty_polls-closed c (suc n) current h)
