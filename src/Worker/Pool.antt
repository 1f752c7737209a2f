-- ===== src/Worker/Pool.antt =====
-- worker.go: `processJobs`, the loops that ask for jobs, and the goroutines that they start. The pool counts how many
-- of them stand at each point of the code; a step is one of them going on.
pub mod Bounds
pub mod Progress
use dark_stream.Common.{
  ◌≡◌, ℕ, true, suc, some, none, ltb, if◌then◌else◌, false, Option, Bool, ◌-◌, ◌&&◌,
}

-- The loops: before the semaphore, before the rate limiter with a slot taken, in `GetNextJob`, in the pause after it,
-- and returned. The goroutines: started, in `executeJob`, and after it with the slot not yet given back.
-- `slots` is the semaphore's content, `active_jobs` the counter that a heartbeat reports.
pub record Pool : Type 0 where
  pub waiting : ℕ
  pub holding : ℕ
  pub asking : ℕ
  pub resting : ℕ
  pub stopped : ℕ
  pub launched : ℕ
  pub active : ℕ
  pub leaving : ℕ
  pub slots : ℕ
  pub active_jobs : ℕ
  pub cancelled : Bool

-- `Start` with so many loops.
abbrev pub started : ℕ → Pool
started concurrency = record {
  waiting = concurrency;
  holding = 0;
  asking = 0;
  resting = 0;
  stopped = 0;
  launched = 0;
  active = 0;
  leaving = 0;
  slots = 0;
  active_jobs = 0;
  cancelled = false;
}

pub data Action : Type 0 where
  acquire leave_waiting pass_limiter leave_holding no_job launch wake leave_resting begin finish
        release cancel :
      Action

-- Where the pool is after an action, which is `none` where the code does not go on that way.
module _ (concurrency : ℕ) where
  abbrev pub acquired : Pool → Pool
  acquired p = record p { waiting = p.waiting - 1; holding = suc p.holding; slots = suc p.slots }

  abbrev pub when : Bool → Pool → Option Pool
  when b p = if b then some p else none

  unfoldable pub act : Action → Pool → Option Pool
  act acquire p = when (ltb 0 p.waiting && ltb p.slots concurrency) (acquired p)
  act leave_waiting p =
      when (ltb 0 p.waiting && p.cancelled)
        (record p { waiting = p.waiting - 1; stopped = suc p.stopped })
  act pass_limiter p =
      when (ltb 0 p.holding) (record p { holding = p.holding - 1; asking = suc p.asking })
  act leave_holding p =
      when (ltb 0 p.holding && p.cancelled)
        (record p { holding = p.holding - 1; stopped = suc p.stopped; slots = p.slots - 1 })
  act no_job p =
      when (ltb 0 p.asking)
        (record p { asking = p.asking - 1; resting = suc p.resting; slots = p.slots - 1 })
  act launch p =
      when (ltb 0 p.asking)
        (record p { asking = p.asking - 1; waiting = suc p.waiting; launched = suc p.launched })
  act wake p =
      when (ltb 0 p.resting) (record p { resting = p.resting - 1; waiting = suc p.waiting })
  act leave_resting p =
      when (ltb 0 p.resting && p.cancelled)
        (record p { resting = p.resting - 1; stopped = suc p.stopped })
  act begin p = when (ltb 0 p.launched) (record p {
    launched = p.launched - 1;
    active = suc p.active;
    active_jobs = suc p.active_jobs;
  })
  act finish p =
      when (ltb 0 p.active) (record p {
        active = p.active - 1;
        leaving = suc p.leaving;
        active_jobs = p.active_jobs - 1;
      })
  act release p = when (ltb 0 p.leaving) (record p { leaving = p.leaving - 1; slots = p.slots - 1 })
  act cancel p = some (record p { cancelled = true })

  -- The pools that a schedule of actions leads to.
  pub data Reachable : Pool → Type 0 where
    at_start : Reachable (started concurrency)
    after : {p q : Pool} (a : Action) → act a p ≡ some q → Reachable p → Reachable q
