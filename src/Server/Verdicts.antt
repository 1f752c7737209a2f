-- ===== src/Server/Verdicts.antt =====
-- What an update of a single job answers, and what it has done then.
pub mod Reports
pub mod Operator
pub mod Batches
pub mod Capacity
pub mod Pruning
pub mod Pauses
pub mod Uploads
use dark_stream.Common.{
  if◌then◌else◌, ℕ, ◌≡◌, ◌≢◌, refl, sym, ◌∙◌, Bool, true, false, List, [], Option, none, some,
  String, ◌⊎◌, inl, inr, arith, Bool-cases, ltb, count,
}
use dark_stream.Models.{Job}
use dark_stream.Tracker.{Store, Result, ok, err, Error, driver, M, ◌>>=◌, try, statement}
use dark_stream.Tracker.Jobs.{has_id, update_where, transition}
use dark_stream.Tracker.Outcomes.{called}
use dark_stream.Tracker.Rows.{find_job, find_job_id, Keyed, changed, find_job-update_where}
use dark_stream.Tracker.Fetching.{
  try_then, try_quiet, passes, update_where-own, update_where-untouched,
}
use dark_stream.Server.{only, method_eq, Method, refuse, Response}

abbrev pub code_of : Result Response → ℕ
code_of (ok r) = r.code
code_of (err _) = 0

-- An answer that is not 200, from a table that is as it was.
abbrev pub TurnedDown : Store → Result Response × Store → Type 0
TurnedDown s r = (code_of r.0 ≢ 200) × (r.1.jobs ≡ s.jobs)

-- How a handler answers once its update has been tried: 200 exactly if a row was matched.
pub record Answers (a : Result Bool → M Response) : Type 0 where
  pub refused : (e : Error) (t : Store) → TurnedDown t (a (err e) t)
  pub conflict : (t : Store) → TurnedDown t (a (ok false) t)
  pub done : (t : Store) → (code_of (a (ok true) t).0 ≡ 200) × ((a (ok true) t).1.jobs ≡ t.jobs)

-- The answer 200, and the one row of the table that changed.
abbrev pub Updated : (Job → Job) → Job → Store → Result Response × Store → Type 0
Updated change k s r = (code_of r.0 ≡ 200) × (r.1.jobs ≡ update_where (has_id k.id) change s.jobs)

module _ (test : Job → Bool) (change : Job → Job) (a : Result Bool → M Response)
    (answers : Answers a) (s : Store) (keyed : Keyed s.jobs) (k : Job)
    (found : find_job k.id s.jobs ≡ some k)
    (own : (j : Job) → test j ≡ true → has_id k.id j ≡ true) where
  abbrev after : Store
  after = (transition test change (called (called s))).1

  matched :
      test k ≡ true
      → (r : Result Response × Store) → (code_of r.0 ≡ 200) × (r.1.jobs ≡ after.jobs)
      → Updated change k s r
  matched e r h = (h.0, h.1 ∙ update_where-own k.id test own change s.jobs k keyed found e)

  abbrev Verdict : Result Response × Store → Type 0
  Verdict r = ((test k ≡ true) × Updated change k s r) ⊎ TurnedDown s r

  pub update-Verdict : Verdict ((try (statement (transition test change)) >>= a) (called s))
  update-Verdict =
      try_then (transition test change) a (called s) Verdict (inr (answers.refused driver _))
        (elim (Bool-cases (test k)) [
          | inl e ↦
              let hit : ltb 0 (count test s.jobs) ≡ true =
                passes k.id test own s.jobs k keyed found ∙ e in
              rw hit (inl (e, matched e (a (ok true) after) (answers.done after)))
          | inr e ↦
              let miss : ltb 0 (count test s.jobs) ≡ false =
                passes k.id test own s.jobs k keyed found ∙ e in
              let c = answers.conflict after in
              rw miss (inr (c.0, c.1 ∙ update_where-untouched test change s.jobs miss))
        ])

  pub update_succeeds :
      s.faults ≡ []
      → test k ≡ true
      → Updated change k s ((try (statement (transition test change)) >>= a) (called s))
  update_succeeds quiet e =
      let hit : ltb 0 (count test s.jobs) ≡ true = passes k.id test own s.jobs k keyed found ∙ e in
      try_quiet (transition test change) a (called s) (Updated change k s) (rw quiet refl)
        (rw hit (matched e (a (ok true) after) (answers.done after)))

-- The guards in front of an update.
module _ (P : Result Response × Store → Type 0) (s : Store) where
  pub only-cases :
      (expected actual : Method) (h : M Response)
      → P (refuse 405 s)
      → (method_eq actual expected ≡ true → P (h s))
      → P (only expected actual h s)
  only-cases expected actual h refused passed = elim (Bool-cases (method_eq actual expected)) [
    | inl e ↦ rw e (passed e)
    | inr e ↦ rw e refused
  ]

  pub when-cases :
      (b : Bool) (h : M Response) (n : ℕ)
      → P (refuse n s)
      → (b ≡ true → P (h s))
      → P ((if b then h else refuse n) s)
  when-cases b h n refused passed = elim (Bool-cases b) [
    | inl e ↦ rw e (passed e)
    | inr e ↦ rw e refused
  ]

  pub unless-cases :
      (b : Bool) (n : ℕ) (h : M Response)
      → P (refuse n s)
      → P (h s)
      → P ((if b then refuse n else h) s)
  unless-cases b n h refused passed = elim (Bool-cases b) [
    | inl e ↦ rw e refused
    | inr e ↦ rw e passed
  ]

pub turned_down : (n : ℕ) (s : Store) → n ≢ 200 → TurnedDown s (refuse n s)
turned_down n s h = (h, refl)
