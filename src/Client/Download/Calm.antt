-- ===== src/Client/Download/Calm.antt =====
-- An attempt in which all works brings the source, or a fresh start.

use dark_stream.Server.Video.Ranges.{open_header}
use dark_stream.Client.Download.Rest.{rest_refused, rest_sent, IsPartial, rest-slice, last_of}
use dark_stream.Server.Video.{refused, whole, partial, send_file}
use dark_stream.Client.Retry.{failure, Failure}
use dark_stream.Client.Download.{
  discard, write_stream, range_header, start_offset, after_answer, download_attempt, Weather,
}
use dark_stream.Common.{
  ◌∙◌, take-length-take, take-append-drop, sym, subst, length-take, inr, inl, false, ap, Bool-cases,
  refl, not, ltb, if◌then◌else◌, drop, arith, [], ◌==◌, ◌++◌, ◌⊎◌, ◌≡◌, ℕ, true, take, some, none,
  length, ◌^◌, Option, List, Bool, ◌<◌,
}

-- All that the attempt needs works, and the whole answer arrives.
pub record IsCalm (source : List ℕ) (w : Weather) : Type 0 where
  pub prepared : w.prepares ≡ true
  pub answered : (header : List ℕ) → w.answer header ≡ some (send_file true source header)
  pub opened : w.opens ≡ true
  pub complete : w.arrives ≡ none
  pub removed : w.removes ≡ true

module _ (source : List ℕ) (small : length source < 2 ^ 63) (w : Weather)
    (calm : IsCalm source w) where
  -- Either the source, or a fresh start.
  abbrev pub Advances : Option Failure × Option (List ℕ) → Type 0
  Advances x = (x ≡ (none, some source)) ⊎ (x ≡ (some failure, none))

  pub calm_attempt :
      (resume : Bool) (disk : Option (List ℕ))
      → download_attempt resume w disk
        ≡ after_answer resume w
            (start_offset resume disk)
            (some (send_file true source (range_header (start_offset resume disk))))
            disk
  unfolding download_attempt
  calm_attempt resume disk = simp (calm.prepared, calm.answered)

  pub calm_stream :
      (resume : Bool) (kept body : List ℕ) (disk : Option (List ℕ)) (n : ℕ)
      → kept ++ body ≡ source
      → n ≡ length source
      → write_stream resume w kept (some n) body disk ≡ (none, some source)
  calm_stream resume kept body disk n e f =
      simp (calm.opened, calm.complete, e, f) (same (length source))
    where
      same :
          (m : ℕ)
          → (if not (m == m) then discard resume w source else (none, some source))
            ≡ (none, some source)
      same m = ground arith

  pub calm_whole :
      (resume : Bool) (offset : ℕ) (disk : Option (List ℕ))
      → after_answer resume w offset (some (whole source)) disk ≡ (none, some source)
  unfolding after_answer
  calm_whole resume offset disk = calm_stream resume [] source disk (length source) refl refl

  pub calm_refused :
      (resume : Bool) (offset : ℕ) (disk : Option (List ℕ))
      → 0 < offset
      → after_answer resume w offset (some (refused 416)) disk ≡ (some failure, none)
  unfolding after_answer
  calm_refused resume offset disk positive = simp (calm.removed) (ground arith)

  pub calm_partial :
      (n : ℕ)
      → 0 < length (take n source)
      → length (take n source) < length source
      → after_answer true w
          (length (take n source))
          (some (partial (length (take n source)) (last_of source) source))
          (some (take n source))
        ≡ (none, some source)
  unfolding after_answer
  calm_partial n positive lt =
      let first : ltb 0 (length (take n source)) ≡ true = ground arith in
      rw (first, rest-slice (length (take n source)) source lt)
        (calm_stream true (take n source) (drop (length (take n source)) source)
          (some (take n source)) _
          (ap (λ t. t ++ drop (length (take n source)) source) (sym (take-length-take n source))
            ∙ take-append-drop (length (take n source)) source)
          (omega arith))

  pub calm_rest :
      (n : ℕ)
      → 0 < length (take n source)
      → Advances (
          after_answer true w
            (length (take n source))
            (some (send_file true source (open_header (length (take n source)))))
            (some (take n source)))
  calm_rest n positive = elim (Bool-cases (ltb (length (take n source)) (length source))) [
    | inl lt ↦
        rw (rest_sent true source (length (take n source)) small (ground arith))
          (inl (calm_partial n positive (ground arith)))
    | inr ge ↦
        rw
          (rest_refused true source (length (take n source)) (omega (arith, length-take n source))
            (ground arith))
          (inr (calm_refused true _ (some (take n source)) positive))
  ]

  pub calm_fresh :
      (resume : Bool) (disk : Option (List ℕ))
      → start_offset resume disk ≡ 0
      → download_attempt resume w disk ≡ (none, some source)
  unfolding send_file
  calm_fresh resume disk e = calm_attempt resume disk ∙ rw e (calm_whole resume 0 disk)

  pub calm_Advances :
      (resume : Bool) (disk : Option (List ℕ))
      → IsPartial source disk
      → Advances (download_attempt resume w disk)
  calm_Advances resume none h = inl (calm_fresh resume none refl)
  calm_Advances false (some f) h = inl (calm_fresh false (some f) refl)
  calm_Advances true (some f) (n, e) =
      subst (λ g. Advances (download_attempt true w (some g))) (sym e) (resumed n)
    where
      resumed : (n : ℕ) → Advances (download_attempt true w (some (take n source)))
      resumed n = elim (Bool-cases (length (take n source) == 0)) [
        | inl z ↦ inl (calm_fresh true (some (take n source)) (ground arith))
        | inr p ↦ rw (calm_attempt true (some (take n source)), p) (calm_rest n (ground arith))
      ]
