-- ===== src/Client/Download/Progress.antt =====
-- Once the connection holds, a download succeeds.
use dark_stream.Client.Download.Calm.{calm_Advances, calm_fresh, Advances, IsCalm}
use dark_stream.Client.Retry.Invariant.{retry-Inv}
use mathlib.Core.Bool.{false≢true}
use dark_stream.Client.Retry.Bounds.{retry_proper, Closes, state_before, GoesOn}
use dark_stream.Client.Download.Resume.{download_attempt-Sound}
use dark_stream.Client.Download.Rest.{Sound, Serves, IsPartial}
use dark_stream.Client.Retry.{
  retry, cancelled, unexpected, not_retryable, exhausted, succeeded, Ending,
  is_permanent_http_error, failure, Failure,
}
use dark_stream.Client.Download.{download_source_video, download_attempt, Weather}
use dark_stream.Common.{
  ◌-◌, zero, ◌∙◌, sym, suc, subst, inr, inl, false, ap, refl, arith, ◌≡◌, ℕ, true, some, none,
  length, ◌^◌, Option, List, Bool, ◌<◌,
}

-- A transfer of which the first attempt may fail for a while, and the other two are made in calm weather.
module _ (source : List ℕ) (resume : Bool) (cancels : ℕ → Bool) (weather : ℕ → Weather)
    (disk : Option (List ℕ)) (small : length source < 2 ^ 63) (start : IsPartial source disk)
    (lasts : (k : ℕ) → cancels k ≡ false) (serves : Serves source (weather 0))
    (passing : (e : Failure)
      → (download_attempt resume (weather 0) disk).0 ≡ some e
      → is_permanent_http_error e ≡ false)
    (second : IsCalm source (weather 1)) (third : IsCalm source (weather 2)) where
  abbrev attempt : ℕ → Option (List ℕ) → Option Failure × Option (List ℕ)
  attempt k = download_attempt resume (weather k)

  first_leaves : IsPartial source (attempt 0 disk).1
  first_leaves = (download_attempt-Sound source small (weather 0) serves resume disk start).0

  second-Advances : Advances source small (weather 1) second (attempt 1 (attempt 0 disk).1)
  second-Advances = calm_Advances source small (weather 1) second resume _ first_leaves

  -- Past a failure the file is gone, and the third attempt gets it.
  third_succeeds :
      (e : Failure)
      → (attempt 1 (attempt 0 disk).1).0 ≡ some e
      → (attempt 2 (attempt 1 (attempt 0 disk).1).1).0 ≡ none
  third_succeeds e h = elim second-Advances [
    | inl good ↦ absurd (cc)
    | inr bad ↦ rw bad (rw (calm_fresh source small (weather 2) third resume none refl) refl)
  ]

  not_third :
      (f : Failure) (t : Option (List ℕ))
      → GoesOn is_permanent_http_error cancels attempt (attempt 1 (attempt 0 disk).1)
      → attempt 2 (attempt 1 (attempt 0 disk).1).1 ≡ (some f, t)
      → ⊥
  not_third f t (e, failed, _) h =
      let good : (attempt 2 (attempt 1 (attempt 0 disk).1).1).0 ≡ none = third_succeeds e failed in
      cc

  not_second :
      (f : Failure) (t : Option (List ℕ))
      → attempt 1 (attempt 0 disk).1 ≡ (some f, t)
      → is_permanent_http_error f ≡ true
      → ⊥
  not_second f t h permanent = elim second-Advances [
    | inl good ↦ cc
    | inr bad ↦
        let same : f ≡ failure = cc in
        false≢true (subst (λ e. is_permanent_http_error e ≡ true) same permanent)
  ]

  pub no_other_end :
      (e : Ending) (n : ℕ) (t : Option (List ℕ))
      → n < 3
      → ((k : ℕ)
          → suc k < suc n
          → GoesOn is_permanent_http_error cancels attempt
              (attempt k (state_before is_permanent_http_error cancels attempt k disk)))
      → Closes is_permanent_http_error cancels attempt e
          (attempt n (state_before is_permanent_http_error cancels attempt n disk))
          t
          (suc n)
      → e ≡ succeeded
  no_other_end succeeded n t lt g c = refl
  no_other_end unexpected n t lt g c = absurd c
  no_other_end cancelled n t lt g c = absurd (false≢true (sym (lasts (suc n)) ∙ c.3))
  no_other_end (exhausted f) zero t lt g c = absurd (omega (arith, c.2))
  no_other_end (exhausted f) (suc zero) t lt g c = absurd (omega (arith, c.2))
  no_other_end (exhausted f) (suc (suc zero)) t lt g c =
      absurd (not_third f t (g 1 (omega arith)) c.0)
  no_other_end (exhausted f) (suc (suc (suc n))) t lt g c = absurd (omega arith)
  no_other_end (not_retryable f) zero t lt g c =
      absurd (false≢true (sym (passing f (ap (λ x. x.0) c.0)) ∙ c.1))
  no_other_end (not_retryable f) (suc zero) t lt g c = absurd (not_second f t c.0 c.1)
  no_other_end (not_retryable f) (suc (suc zero)) t lt g c =
      absurd (not_third f t (g 1 (omega arith)) c.0)
  no_other_end (not_retryable f) (suc (suc (suc n))) t lt g c = absurd (omega arith)

-- The first attempt may break off or be refused in any way that may be retried. If the context is not cancelled,
-- and in the second and the third attempt all works and the whole answer arrives, then the download
-- succeeds and the file is the source, whatever beginning of it was there before.
pub download_source_video_completes :
    (source : List ℕ) (resume : Bool) (cancels : ℕ → Bool) (weather : ℕ → Weather)
    (disk : Option (List ℕ))
    → length source < 2 ^ 63
    → IsPartial source disk
    → ((k : ℕ) → cancels k ≡ false)
    → ((k : ℕ) → Serves source (weather k))
    → ((e : Failure)
        → (download_attempt resume (weather 0) disk).0 ≡ some e
        → is_permanent_http_error e ≡ false)
    → IsCalm source (weather 1)
    → IsCalm source (weather 2)
    → ((download_source_video resume cancels weather disk).ending ≡ succeeded)
      × ((download_source_video resume cancels weather disk).state ≡ some source)
unfolding download_source_video
download_source_video_completes source resume cancels weather disk small start lasts serves passing
      second third =
    (
      done,
      (retry-Inv is_permanent_http_error cancels _ (IsPartial source) (λ d. d ≡ some source) keeps
            disk start).1
          done,
    )
  where
    done : (download_source_video resume cancels weather disk).ending ≡ succeeded
    done =
        let r =
          retry is_permanent_http_error cancels (λ k. download_attempt resume (weather k)) disk in
        let p =
          retry_proper is_permanent_http_error cancels (λ k. download_attempt resume (weather k))
            disk in
        no_other_end source resume cancels weather disk small start lasts (serves 0) passing second
          third r.ending (r.attempts - 1) r.state (omega (arith, p.some_attempt, p.few_attempts))
          (λ k lt. p.earlier k (omega (arith, p.some_attempt)))
          (subst
            (Closes is_permanent_http_error cancels (λ k. download_attempt resume (weather k))
              r.ending
              (download_attempt resume (weather (r.attempts - 1)) (
                state_before is_permanent_http_error cancels
                  (λ k. download_attempt resume (weather k)) (r.attempts - 1) disk))
              r.state)
            (omega (arith, p.some_attempt)) p.closes)

    keeps :
        (k : ℕ) (d : Option (List ℕ))
        → IsPartial source d
        → Sound source (download_attempt resume (weather k) d)
    keeps k d h = download_attempt-Sound source small (weather k) (serves k) resume d h
