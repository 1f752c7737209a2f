-- ===== src/Client/Retry.antt =====
-- master_client.go: the loop that the four transfers share, `DownloadSourceVideo`, `UploadConvertedVideo` and
-- the two `…WithProgress`. An attempt works on a state of the caller's choice.
pub mod Bounds
pub mod Invariant
use dark_stream.Models.{second}
use dark_stream.Common.{
  ◌∷◌, ℕ, zero, suc, some, not, none, ltb, leb, if◌then◌else◌, false, ◌^◌, [], Option, List, Bool,
  ◌==◌, ◌-◌, ◌*◌, ◌&&◌,
}

-- `httpStatusError`, or any other error.
pub data Failure : Type 0 where
  status_error : ℕ → Failure
  failure : Failure

-- A client error, except 408 and 429.
abbrev pub is_permanent_http_error : Failure → Bool
is_permanent_http_error failure = false
is_permanent_http_error (status_error n) =
    leb 400 n && ltb n 500 && not (n == 408) && not (n == 429)

abbrev pub never : Failure → Bool
never _ = false

pub data Ending : Type 0 where
  succeeded cancelled unexpected : Ending
  not_retryable exhausted : Failure → Ending

-- How a transfer ended, the attempts that were made, the pauses that were slept through, in nanoseconds,
-- and the state.
pub record Report (S : Type 0) : Type 0 where
  pub ending : Ending
  pub attempts : ℕ
  pub slept : List ℕ
  pub state : S

abbrev pub max_retries : ℕ
max_retries = 3

abbrev pub base_delay : ℕ
base_delay = 2 * second

-- The pause before an attempt, which is not the first.
abbrev pub delay_before : ℕ → ℕ
delay_before attempt = base_delay * 2 ^ (attempt - 1)

-- `run k` is attempt `k`, and `cancels k` says whether the context is cancelled during the pause before it.
module _ {S : Type 0} (stops : Failure → Bool) (cancels : ℕ → Bool)
    (run : ℕ → S → Option Failure × S) where
  abbrev pub add_pause : ℕ → Report S → Report S
  add_pause attempt r =
      if attempt == 0 then r else record r { slept = delay_before attempt ∷ r.slept }

  abbrev pub add_attempt : Report S → Report S
  add_attempt r = record r { attempts = suc r.attempts }

  abbrev pub ended : Ending → S → Report S
  ended e s = record { ending = e; attempts = 0; slept = []; state = s }

  abbrev pub after_attempt : ℕ → Report S → Option Failure × S → Report S
  after_attempt attempt more (none, s) = ended succeeded s
  after_attempt attempt more (some e, s) =
      if stops e
      then ended (not_retryable e) s
      else if attempt == max_retries - 1
      then ended (exhausted e) s
      else more

  -- The rounds from `attempt` on, `rounds` at most.
  unfoldable pub retry_from : ℕ → ℕ → S → Report S
  retry_from zero attempt s = ended unexpected s
  retry_from (suc rounds) attempt s =
      let more = retry_from rounds (suc attempt) (run attempt s).1 in
      let round = add_pause attempt (add_attempt (after_attempt attempt more (run attempt s))) in
      if not (attempt == 0) && cancels attempt then ended cancelled s else round

  unfoldable pub retry : S → Report S
  unfolding retry_from
  retry s = retry_from max_retries 0 s
