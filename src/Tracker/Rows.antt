-- ===== src/Tracker/Rows.antt =====
-- The jobs table by its key: the row of an identifier, and tables in which it is unique.
use dark_stream.Common.{
  str_eq-true, inr, subst, inl, Bool-cases, ◌≡◌, refl, Bool, false, List, [], ◌∷◌, ◌++◌, Option,
  none, some, String, arith, eq_iff, eq_refl, if◌then◌else◌, filter, count, ltb, All, All-map,
}
use dark_stream.Models.{Job}
use dark_stream.Tracker.Jobs.{has_id, update_where}

unfoldable pub find_job : String → List Job → Option Job
find_job id [] = none
find_job id (j ∷ js) = if has_id id j then some j else find_job id js

-- `id TEXT PRIMARY KEY`.
abbrev pub Keyed : List Job → Type 0
Keyed [] = Unit
Keyed (j ∷ js) = (find_job j.id js ≡ none) × Keyed js

-- A change of a row, if there is one and it passes the test.
abbrev pub changed : (Job → Bool) → (Job → Job) → Option Job → Option Job
changed test change none = none
changed test change (some j) = some (if test j then change j else j)

module _ (test : Job → Bool) (change : Job → Job) (keeps : (j : Job) → (change j).id ≡ j.id) where
  pub find_job-update_where :
      (id : String) (js : List Job)
      → find_job id (update_where test change js) ≡ changed test change (find_job id js)
  unfolding find_job update_where
  find_job-update_where id [] = refl
  find_job-update_where id (j ∷ js) = ground (arith, find_job-update_where id js, keeps j)

  pub update_where-Keyed : (js : List Job) → Keyed js → Keyed (update_where test change js)
  unfolding update_where
  update_where-Keyed [] h = tt
  update_where-Keyed (j ∷ js) h =
      ground (arith, find_job-update_where j.id js, update_where-Keyed js h.1, keeps j)

pub find_job-append :
    (id : String) (js : List Job) (j : Job)
    → find_job id js ≡ none
    → find_job id (js ++ j ∷ []) ≡ (if has_id id j then some j else none)
unfolding find_job
find_job-append id [] j h = refl
find_job-append id (k ∷ js) j h = ground (arith, find_job-append id js j)

pub find_job-append_found :
    (id : String) (js : List Job) (j k : Job)
    → find_job id js ≡ some k
    → find_job id (js ++ j ∷ []) ≡ some k
unfolding find_job
find_job-append_found id [] j k h = ground arith
find_job-append_found id (i ∷ js) j k h = ground (arith, find_job-append_found id js j k)

pub append-Keyed :
    (js : List Job) (j : Job) → Keyed js → find_job j.id js ≡ none → Keyed (js ++ j ∷ [])
unfolding find_job
append-Keyed [] j h n = (refl, tt)
append-Keyed (k ∷ js) j h n = ground (
  arith,
  append-Keyed js j h.1,
  find_job-append k.id js j h.0,
  eq_iff j.id k.id,
  eq_iff k.id j.id,
)

-- Nothing is filed under an identifier that no row has.
pub find_job_absent :
    (id : String) (js : List Job) → ltb 0 (count (has_id id) js) ≡ false → find_job id js ≡ none
unfolding find_job
find_job_absent id [] h = refl
find_job_absent id (j ∷ js) h = ground (arith, find_job_absent id js)

-- A row that passes the test is kept, one that does not is gone.
abbrev pub kept : (Job → Bool) → Option Job → Option Job
kept test none = none
kept test (some j) = if test j then some j else none

module _ (test : Job → Bool) where
  find_job-none-filter :
      (id : String) (js : List Job) → find_job id js ≡ none → find_job id (filter test js) ≡ none
  unfolding find_job
  find_job-none-filter id [] h = refl
  find_job-none-filter id (j ∷ js) h = ground (arith, find_job-none-filter id js)

  pub find_job-filter :
      (id : String) (js : List Job)
      → Keyed js
      → find_job id (filter test js) ≡ kept test (find_job id js)
  unfolding find_job
  find_job-filter id [] h = refl
  find_job-filter id (j ∷ js) h =
      ground (arith, find_job-filter id js h.1, find_job-none-filter id js, eq_iff j.id id)

  pub filter-Keyed : (js : List Job) → Keyed js → Keyed (filter test js)
  filter-Keyed [] h = tt
  filter-Keyed (j ∷ js) h = ground (arith, filter-Keyed js h.1, find_job-none-filter j.id js)

-- A row of a keyed table is the one that its identifier finds.
abbrev pub IsFound : List Job → Job → Type 0
IsFound js j = find_job j.id js ≡ some j

IsFound-cons :
    (k : Job) (js : List Job)
    → find_job k.id js ≡ none
    → (j : Job) → IsFound js j
    → IsFound (k ∷ js) j
unfolding find_job
IsFound-cons k js h j f = ground (arith, eq_iff k.id j.id)

pub Keyed-All : (js : List Job) → Keyed js → All (IsFound js) js
unfolding find_job
Keyed-All [] h = tt
Keyed-All (j ∷ js) h =
    (rw (eq_refl j.id), All-map _ _ (IsFound-cons j js h.0) js (Keyed-All js h.1))

-- Statements about rows and statements about what identifiers find are the same in a keyed table.
pub All-find_job :
    (P : Job → Type 0) (id : String) (js : List Job) {k : Job}
    → All P js
    → find_job id js ≡ some k
    → P k
unfolding find_job
All-find_job P id [] h e = cc
All-find_job P id (j ∷ js) {k} h e = elim (Bool-cases (has_id id j)) [
  | inl hit ↦ let same : some j ≡ some k = rw hit at e in subst P (cc) h.0
  | inr miss ↦ let rest : find_job id js ≡ some k = rw miss at e in All-find_job P id js h.1 rest
]

pub All-of_find_job :
    (P : Job → Type 0) (js : List Job) → Keyed js → ((j : Job) → IsFound js j → P j) → All P js
All-of_find_job P js h f = All-map (IsFound js) P f js (Keyed-All js h)

pub find_job_id : (id : String) (js : List Job) {k : Job} → find_job id js ≡ some k → k.id ≡ id
unfolding find_job
find_job_id id [] e = cc
find_job_id id (j ∷ js) {k} e = elim (Bool-cases (has_id id j)) [
  | inl hit ↦
      let same : some j ≡ some k = rw hit at e in
      subst (λ x. x.id ≡ id) {x = j} {y = k} (cc) (str_eq-true j.id id hit)
  | inr miss ↦ let rest : find_job id js ≡ some k = rw miss at e in find_job_id id js rest
]
