-- ===== src/Tracker/Fetching.antt =====
-- Reading one job and updating it: what `GetJobByID` finds, and when a transition changes the row.
use dark_stream.Common.{
  ◌≡◌, refl, sym, ◌∙◌, ap, Bool, true, false, List, [], ◌∷◌, Option, none, some, String, arith,
  Bool-cases, inl, inr, filter, count, ltb, str_eq-true,
}
use mathlib.Core.Bool.{false≢true}
use dark_stream.Models.{Job}
use dark_stream.Tracker.{Store, Result, ok, err, driver, no_rows, M, ◌>>=◌, try, statement, fails}
use dark_stream.Tracker.Jobs.{has_id, update_where}
use dark_stream.Tracker.Lookup.{get_job_by_id, first_row}
use dark_stream.Tracker.Outcomes.{called}
use dark_stream.Tracker.Rows.{find_job, Keyed}

-- The outcome of a lookup that is served.
abbrev pub looked_up : Option Job → Result Job
looked_up none = err no_rows
looked_up (some j) = ok j

first_row-filter :
    (id : String) (js : List Job) (s : Store)
    → first_row (filter (has_id id) js) s ≡ (looked_up (find_job id js), s)
unfolding find_job
first_row-filter id [] s = refl
first_row-filter id (j ∷ js) s = elim (Bool-cases (has_id id j)) [
  | inl e ↦ rw e refl
  | inr e ↦ rw e (first_row-filter id js s)
]

module _ {ℓ} {B : Type 0} (id : String) (f : Result Job → M B) (s : Store)
    (P : Result B × Store → Type ℓ) where
  pub fetch_then :
      P (f (err driver) (called s))
      → P (f (looked_up (find_job id s.jobs)) (called s))
      → P ((try (get_job_by_id id) >>= f) s)
  unfolding get_job_by_id statement
  fetch_then refused served = elim (Bool-cases (fails s.faults)) [
    | inl e ↦ rw e refused
    | inr e ↦ rw (e, first_row-filter id s.jobs (called s)) served
  ]

  pub fetch_quiet :
      s.faults ≡ []
      → P (f (looked_up (find_job id s.jobs)) (called s))
      → P ((try (get_job_by_id id) >>= f) s)
  unfolding get_job_by_id statement
  fetch_quiet quiet served =
      let e : fails s.faults ≡ false = rw quiet in
      rw (e, first_row-filter id s.jobs (called s)) served

module _ {ℓ} {A B : Type 0} (g : Store → A × Store) (f : Result A → M B) (s : Store)
    (P : Result B × Store → Type ℓ) where
  pub try_then :
      P (f (err driver) (called s))
      → P (f (ok (g (called s)).0) (g (called s)).1)
      → P ((try (statement g) >>= f) s)
  unfolding statement
  try_then refused served = elim (Bool-cases (fails s.faults)) [
    | inl e ↦ rw e refused
    | inr e ↦ rw e served
  ]

  pub try_quiet :
      s.faults ≡ [] → P (f (ok (g (called s)).0) (g (called s)).1) → P ((try (statement g) >>= f) s)
  unfolding statement
  try_quiet quiet served = let e : fails s.faults ≡ false = rw quiet in rw e served

same_row : {j k : Job} → some j ≡ some k → j ≡ k
same_row e = cc

-- A statement that matches no row leaves the table as it is.
pub update_where-untouched :
    (test : Job → Bool) (change : Job → Job) (js : List Job)
    → ltb 0 (count test js) ≡ false
    → update_where test change js ≡ js
unfolding update_where
update_where-untouched test change [] h = refl
update_where-untouched test change (j ∷ js) h =
    ground (arith, update_where-untouched test change js)

-- An identifier under which nothing is filed has no row.
no_row :
    (id : String) (js : List Job) → find_job id js ≡ none → ltb 0 (count (has_id id) js) ≡ false
unfolding find_job
no_row id [] h = refl
no_row id (j ∷ js) h = ground (arith, no_row id js)

-- A test that only rows of `id` pass.
module _ (id : String) (test : Job → Bool)
    (own : (j : Job) → test j ≡ true → has_id id j ≡ true) where
  misses : (j : Job) → has_id id j ≡ false → test j ≡ false
  misses j h = elim (Bool-cases (test j)) [
    | inl e ↦ absurd (false≢true (sym h ∙ own j e))
    | inr e ↦ e
  ]

  pub none_pass : (js : List Job) → find_job id js ≡ none → ltb 0 (count test js) ≡ false
  unfolding find_job
  none_pass [] h = refl
  none_pass (j ∷ js) h = ground (arith, none_pass js, misses j)

  -- Whether it changes the row, in a keyed table, is whether the row passes.
  pub passes :
      (js : List Job) (k : Job)
      → Keyed js
      → find_job id js ≡ some k
      → ltb 0 (count test js) ≡ test k
  unfolding find_job
  passes [] k keyed h = cc
  passes (j ∷ js) k keyed h = elim (Bool-cases (has_id id j)) [
    | inl e ↦
        let same : some j ≡ some k = rw e at h in
        let absent : find_job id js ≡ none =
          ap (λ x. find_job x js) (sym (str_eq-true j.id id e)) ∙ keyed.0 in
        let zero_left = none_pass js absent in
        let counted : ltb 0 (count test (j ∷ js)) ≡ test j = ground (arith, zero_left) in
        counted ∙ ap test (same_row same)
    | inr e ↦
        let rest : find_job id js ≡ some k = rw e at h in
        let not_here = misses j e in let ih = passes js k keyed.1 rest in rw not_here ih
  ]

  -- An update by the test is one of that row.
  pub update_where-own :
      (change : Job → Job) (js : List Job) (k : Job)
      → Keyed js
      → find_job id js ≡ some k
      → test k ≡ true
      → update_where test change js ≡ update_where (has_id id) change js
  unfolding find_job update_where
  update_where-own change [] k keyed h t = refl
  update_where-own change (j ∷ js) k keyed h t = elim (Bool-cases (has_id id j)) [
    | inl e ↦
        let same : some j ≡ some k = rw e at h in
        let hit : test j ≡ true = ap test (same_row same) ∙ t in
        let absent : find_job id js ≡ none =
          ap (λ x. find_job x js) (sym (str_eq-true j.id id e)) ∙ keyed.0 in
        rw (e, hit)
          (ap (λ l. change j ∷ l)
            (update_where-untouched test change js (none_pass js absent)
              ∙ sym (update_where-untouched (has_id id) change js (no_row id js absent))))
    | inr e ↦
        let rest : find_job id js ≡ some k = rw e at h in
        rw (e, misses j e) (ap (λ l. j ∷ l) (update_where-own change js k keyed.1 rest t))
  ]
