-- ===== src/Tracker/Assignment.antt =====
-- Which jobs a claim hands out: pending ones only, each once, the most urgent first, and as many
-- as the limits allow.
use dark_stream.Common.{
  All-swap, eq_refl, str_eq-true, ℕ, ◌≡◌, sym, ◌∙◌, ap, subst, ◌⊎◌, inl, inr, true, List, [], ◌∷◌,
  some, String, arith, Bool-cases, str_eq, All, All-map, drop, min, All-take, All-take-drop,
  All-sort_by_inv, All-filter_inv, filter, take-before-drop,
}
use dark_stream.Models.{Job}
use dark_stream.Tracker.Lookup.{comes_before, is_pending, pending_queue}
use dark_stream.Tracker.Claim.{next_batch}
use dark_stream.Tracker.Rows.{find_job, Keyed, IsFound, Keyed-All}
use dark_stream.Tracker.Order.{pending_queue-IsSorted, pending_queue-All, pending_queue-is_pending}
use dark_stream.Tracker.Batch.{in_batch}

-- A row of the table that is pending.
abbrev pub IsQueued : List Job → Job → Type 0
IsQueued jobs j = IsFound jobs j × (is_pending j ≡ true)

pub next_batch-IsQueued :
    (limit : ℕ) (jobs : List Job) → Keyed jobs → All (IsQueued jobs) (next_batch limit jobs)
next_batch-IsQueued limit jobs k = All-take (IsQueued jobs) _ _ (
    both (pending_queue jobs) (pending_queue-All (IsFound jobs) jobs (Keyed-All jobs k))
      (pending_queue-is_pending jobs))
  where
    both :
        (js : List Job)
        → All (IsFound jobs) js
        → All (λ j. is_pending j ≡ true) js
        → All (IsQueued jobs) js
    both [] f p = tt
    both (j ∷ js) f p = ((f.0, p.0), both js f.1 p.1)

pub in_batch_pending :
    (jobs batch : List Job) (id : String) {k : Job}
    → All (IsQueued jobs) batch
    → in_batch batch id ≡ true
    → find_job id jobs ≡ some k
    → is_pending k ≡ true
in_batch_pending jobs [] id h m e = cc
in_batch_pending jobs (j ∷ js) id {k} h m e = elim (Bool-cases (str_eq id j.id)) [
  | inl hit ↦
      let same : some j ≡ some k =
        sym h.0.0 ∙ ap (λ i. find_job i jobs) (sym (str_eq-true id j.id hit)) ∙ e in
      subst (λ x. is_pending x ≡ true) {x = j} {y = k} (cc) h.0.1
  | inr miss ↦ in_batch_pending jobs js id h.1 (rw miss at m) e
]

-- A pending job is in the batch, or may stand behind all of it.
abbrev pub Split : ℕ → List Job → Job → Type 0
Split limit jobs k =
    (in_batch (next_batch limit jobs) k.id ≡ true)
    ⊎ All (λ j. comes_before j k ≡ true) (next_batch limit jobs)

pub in_batch_self : (js : List Job) → All (λ k. in_batch js k.id ≡ true) js
in_batch_self [] = tt
in_batch_self (j ∷ js) = (
  rw (eq_refl j.id),
  All-map (λ k. in_batch js k.id ≡ true) (λ k. in_batch (j ∷ js) k.id ≡ true) (λ k h. ground arith)
      js (in_batch_self js),
)

pub next_batch-Split :
    (limit : ℕ) (jobs : List Job) → All (λ k. is_pending k ≡ true → Split limit jobs k) jobs
unfolding pending_queue
next_batch-Split limit jobs = All-filter_inv (Split limit jobs) is_pending jobs (
    All-sort_by_inv comes_before (Split limit jobs) (filter is_pending jobs)
      (All-take-drop (Split limit jobs) (min limit 100) (pending_queue jobs) taken waiting))
  where
    taken : All (Split limit jobs) (next_batch limit jobs)
    taken = All-map _ (Split limit jobs) (λ k h. inl h) _ (in_batch_self (next_batch limit jobs))

    waiting : All (Split limit jobs) (drop (min limit 100) (pending_queue jobs))
    waiting =
        All-map (λ k. All (λ j. comes_before j k ≡ true) (next_batch limit jobs)) (Split limit jobs)
          (λ k h. inr h) _
          (All-swap (λ j k. comes_before j k ≡ true) (next_batch limit jobs) _
            (take-before-drop comes_before (min limit 100) (pending_queue jobs)
              (pending_queue-IsSorted jobs)))
