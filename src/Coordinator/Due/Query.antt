-- ===== src/Coordinator/Due/Query.antt =====
-- What the query of the retry monitor reads of the job table.
use dark_stream.Common.{
  ◌≡◌, sym, ◌∙◌, ap, subst, inl, inr, true, false, List, [], ◌∷◌, some, String, All, All-map,
  Bool-cases, arith, str_eq, filter, filter-All, All-filter_inv, sort_by, All-sort_by,
  All-sort_by_inv, eq_refl,
}
use mathlib.Core.Bool.{false≢true}
use dark_stream.Models.{Job}
use dark_stream.Tracker.Lookup.{is_retryable, older}
use dark_stream.Tracker.Rows.{find_job, find_job_id, IsFound, Keyed, Keyed-All, All-find_job}
use dark_stream.Tracker.Batch.{in_batch}

-- The rows that the query reads have the job among them.
pub listed_due :
    (id : String) (js : List Job) (k : Job)
    → find_job id js ≡ some k
    → is_retryable k ≡ true
    → in_batch (sort_by older (filter is_retryable js)) id ≡ true
listed_due id js k found ready =
    elim (Bool-cases (in_batch (sort_by older (filter is_retryable js)) id)) [
      | inl e ↦ e
      | inr e ↦
          let none_there =
            All-filter_inv (λ j. str_eq id j.id ≡ false) is_retryable js
              (All-sort_by_inv older (λ j. str_eq id j.id ≡ false) (filter is_retryable js)
                (absent _ e)) in
          let no =
            All-find_job (λ j. is_retryable j ≡ true → str_eq id j.id ≡ false) id js none_there
              found ready in
          let yes : str_eq id k.id ≡ true =
            subst (λ x. str_eq id x ≡ true) (sym (find_job_id id js found)) (eq_refl id) in
          absurd (false≢true (sym no ∙ yes))
    ]
  where
    absent : (ks : List Job) → in_batch ks id ≡ false → All (λ j. str_eq id j.id ≡ false) ks
    absent [] h = tt
    absent (j ∷ ks) h = (ground arith, absent ks (ground arith))

pub own_rows :
    (id : String) (js : List Job) (k : Job)
    → Keyed js
    → find_job id js ≡ some k
    → All (λ j. j.id ≡ id → j ≡ k) (sort_by older (filter is_retryable js))
own_rows id js k keyed found =
    All-sort_by older (λ j. j.id ≡ id → j ≡ k) (filter is_retryable js)
      (filter-All (λ j. j.id ≡ id → j ≡ k) is_retryable js
        (All-map (IsFound js) (λ j. j.id ≡ id → j ≡ k)
          (λ j f at. same_found (sym f ∙ ap (λ x. find_job x js) at ∙ found)) js
          (Keyed-All js keyed)))
  where
    same_found : {j : Job} → some j ≡ some k → j ≡ k
    same_found h = cc
