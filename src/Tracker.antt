-- ===== src/Tracker.antt =====
-- video-converter-master/internal/db/tracker.go: the tables, and how a statement runs on them.
-- A table is the list of its rows in order of insertion. `faults` says of each coming call of the
-- database driver whether it fails; calls beyond the list succeed.
pub mod Jobs
pub mod Claim
pub mod Workers
pub mod Settings
pub mod Lookup
pub mod Rows
pub mod Outcomes
pub mod Respects
pub mod Order
pub mod Batch
pub mod Claiming
pub mod Filling
pub mod Claims
pub mod Exclusion
pub mod Fetching
pub mod Assignment
use dark_stream.Common.{Bool, true, false, List, [], ◌∷◌, if◌then◌else◌}
use dark_stream.Models.{Job, WorkerHeartbeat, JobProgress, WorkerSettings}

pub record Store : Type 0 where
  pub jobs : List Job
  pub workers : List WorkerHeartbeat
  pub progress : List JobProgress
  pub settings : List WorkerSettings
  pub faults : List Bool

pub data Error : Type 0 where
  driver : Error
  no_rows : Error
  job_already_exists : Error
  job_not_found : Error
  invalid_status : Error
  negative_limit : Error

pub data Result (A : Type 0) : Type 0 where
  ok : A → Result A
  err : Error → Result A

-- A method of the tracker: it reads and changes the store, and may fail.
abbrev pub M : Type 0 → Type 0
M A = Store → Result A × Store

abbrev pub pure : {A : Type 0} → A → M A
pure a s = (ok a, s)

abbrev pub fail : {A : Type 0} → Error → M A
fail e s = (err e, s)

-- The second half of a bind, on the outcome of the first.
abbrev pub next : {A B : Type 0} → (A → M B) → Result A × Store → Result B × Store
next f (ok a, s) = f a s
next f (err e, s) = (err e, s)

infixl 5 ◌>>=◌ ◌>>◌
abbrev pub ◌>>=◌ : {A B : Type 0} → M A → (A → M B) → M B
◌>>=◌ m f s = next f (m s)

abbrev pub ◌>>◌ : {B : Type 0} → M (Unit {0}) → M B → M B
m >> k = m >>= λ _. k

-- `err` is looked at by the caller, which goes on.
abbrev pub try : {A : Type 0} → M A → M (Result A)
try m s = let (r, t) = m s in (ok r, t)

abbrev pub fails : List Bool → Bool
fails [] = false
fails (b ∷ _) = b

abbrev pub later : List Bool → List Bool
later [] = []
later (_ ∷ bs) = bs

-- One call of the driver.
unfoldable pub statement : {A : Type 0} → (Store → A × Store) → M A
statement f s =
    let t = record s { faults = later s.faults } in
    if fails s.faults then (err driver, t) else (ok (f t).0, (f t).1)

abbrev pub reading : {A : Type 0} → (Store → A) → Store → A × Store
reading f s = (f s, s)

abbrev pub writing : (Store → Store) → Store → Unit {0} × Store
writing f s = (tt, f s)

abbrev pub query : {A : Type 0} → (Store → A) → M A
query f = statement (reading f)

abbrev pub exec : (Store → Store) → M (Unit {0})
exec f = statement (writing f)

-- A failed transaction leaves the tables as they were before it.
abbrev pub settle : {A : Type 0} → Store → Result A × Store → Result A × Store
settle s (ok a, t) = (ok a, t)
settle s (err e, t) = (err e, record s { faults = t.faults })

-- What stands between `BEGIN IMMEDIATE` and `COMMIT`, with the deferred `ROLLBACK`.
unfoldable pub in_transaction : {A : Type 0} → M A → M A
in_transaction m s = settle s (m s)
