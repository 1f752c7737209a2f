-- ===== src/Tracker/Exclusion.antt =====
-- Two claims never hand out the same job.
use dark_stream.Common.{
  str_eq-true, str_eq, ℕ, ◌≡◌, ◌<◌, sym, ◌∙◌, ap, subst, inl, inr, true, false, List, [], ◌∷◌, some,
  String, Bool-cases, All, All-map,
}
use mathlib.Core.Bool.{false≢true}
use dark_stream.Models.{Job}
use dark_stream.Tracker.{Store, ok}
use dark_stream.Tracker.Lookup.{is_pending}
use dark_stream.Tracker.Claim.{claim_next_pending_jobs}
use dark_stream.Tracker.Rows.{find_job, Keyed}
use dark_stream.Tracker.Batch.{in_batch}
use dark_stream.Tracker.Claims.{IsAssigned, claim_assigns, claim-Keyed}

-- What a claim returned is no longer pending.
pub assigned_running :
    (worker : String) (now : ℕ) (s t : Store) (js : List Job) (id : String) {k : Job}
    → All (IsAssigned worker now s t) js
    → in_batch js id ≡ true
    → find_job id t.jobs ≡ some k
    → is_pending k ≡ false
assigned_running worker now s t [] id a m e = cc
assigned_running worker now s t (j ∷ js) id {k} a m e = elim (Bool-cases (str_eq id j.id)) [
  | inl hit ↦
      let same : some j ≡ some k =
        sym a.0.stored ∙ ap (λ i. find_job i t.jobs) (sym (str_eq-true id j.id hit)) ∙ e in
      subst (λ x. is_pending x ≡ false) {x = j} {y = k} (cc) (rw a.0.running)
  | inr miss ↦ assigned_running worker now s t js id a.1 (rw miss at m) e
]

-- Two claims, one after the other.
module _ (w₁ w₂ : String) (t₁ t₂ n₁ n₂ : ℕ) {js ks : List Job} (s : Store) where
  -- Two claims with positive limits, the second from the store that the first leaves, which both return
  -- and begin with a keyed table: no job that the second returns was returned by the first.
  pub claims_disjoint :
      0 < n₁
      → 0 < n₂
      → Keyed s.jobs
      → (claim_next_pending_jobs w₁ n₁ t₁ s).0 ≡ ok js
      → (claim_next_pending_jobs w₂ n₂ t₂ (claim_next_pending_jobs w₁ n₁ t₁ s).1).0 ≡ ok ks
      → All (λ k. in_batch js k.id ≡ false) ks
  claims_disjoint p₁ p₂ keyed first second =
      All-map _ _ apart ks
        (claim_assigns w₂ t₂ n₂ _ p₂ (claim-Keyed w₁ t₁ n₁ s p₁ keyed first) second)
    where
      apart :
          (k : Job)
          → IsAssigned w₂ t₂
              (claim_next_pending_jobs w₁ n₁ t₁ s).1
              (claim_next_pending_jobs w₂ n₂ t₂ (claim_next_pending_jobs w₁ n₁ t₁ s).1).1
              k
          → in_batch js k.id ≡ false
      apart k a = elim (Bool-cases (in_batch js k.id)) [
        | inr m ↦ m
        | inl m ↦
            let no : is_pending a.queued.0 ≡ false =
              assigned_running w₁ t₁ s _ js k.id (claim_assigns w₁ t₁ n₁ s p₁ keyed first) m
                a.queued.1 in
            absurd (false≢true (sym no ∙ a.queued.2))
      ]
