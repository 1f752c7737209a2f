-- ===== src/Client/Download/Stream.antt =====
-- One answer of the master, and what it leaves of the file.
use dark_stream.Client.Download.Rest.{
  rest_refused, rest-slice, rest_sent, last_of, IsPartial, Sound,
}
use dark_stream.Server.Video.Ranges.{open_header}
use dark_stream.Client.Download.{
  is_wrong_size, remove_if, after_answer, discard, received, check_stream, write_stream, Weather,
}
use dark_stream.Server.Video.{whole, partial, refused, send_file}
use dark_stream.Common.{
  length-take, take-length-take, subst, not, ap, ◌==◌, ◌&&◌, ◌∙◌, true, take-append-take,
  take-append-drop, sym, refl, ltb, inr, inl, if◌then◌else◌, false, Bool-cases, ◌++◌, ◌+◌, ◌≢◌, ◌≡◌,
  ℕ, take_all, take, some, none, length, drop, arith, ◌^◌, Option, List, Bool, ◌<◌, ◌-◌,
}

-- A stream of the rest of the source behind what is kept of it.
module _ (source : List ℕ) (resume : Bool) (w : Weather) where
  pub IsPartial-received :
      (k : ℕ) (arrives : Option ℕ)
      → IsPartial source (some (take k source ++ received arrives (drop k source)))
  IsPartial-received k none =
      (length source, take-append-drop k source ∙ sym (take_all _ source (omega arith)))
  IsPartial-received k (some n) = (k + n, take-append-take k n source)

  pub discard-Sound :
      (file : List ℕ) → IsPartial source (some file) → Sound source (discard resume w file)
  discard-Sound file h = (kept (not resume && w.removes), λ c. cc)
    where
      kept : (b : Bool) → IsPartial source (remove_if b (some file))
      kept true = tt
      kept false = h

  pub check_stream-Sound :
      (k : ℕ) (expected arrives : Option ℕ)
      → Sound source (
          check_stream resume w arrives expected
            (take k source ++ received arrives (drop k source)))
  check_stream-Sound k expected (some n) = discard-Sound _ (IsPartial-received k (some n))
  check_stream-Sound k expected none =
      elim (Bool-cases (is_wrong_size expected (length (take k source ++ drop k source)))) [
        | inl e ↦ rw e (discard-Sound _ (IsPartial-received k none))
        | inr e ↦ rw e (IsPartial-received k none, λ c. ap some (take-append-drop k source))
      ]

  pub write_stream-Sound :
      (k : ℕ) (expected : Option ℕ) (disk : Option (List ℕ))
      → IsPartial source disk
      → Sound source (write_stream resume w (take k source) expected (drop k source) disk)
  write_stream-Sound k expected disk h = elim (Bool-cases w.opens) [
    | inl e ↦ rw e (check_stream-Sound k expected w.arrives)
    | inr e ↦ rw e (h, λ c. cc)
  ]

  pub removed-Sound :
      (disk : Option (List ℕ)) (b : Bool)
      → IsPartial source disk
      → IsPartial source (remove_if b disk)
  removed-Sound disk true h = tt
  removed-Sound disk false h = h

  pub after_refusal-Sound :
      (offset n : ℕ) (disk : Option (List ℕ))
      → n ≢ 200
      → n ≢ 206
      → IsPartial source disk
      → Sound source (after_answer resume w offset (some (refused n)) disk)
  unfolding after_answer
  after_refusal-Sound offset n disk p q h =
      let other : (n == 206) ≡ false = ground arith in
      let bad : (n == 200) ≡ false = ground arith in
      rw (other, bad)
        (elim (Bool-cases (n == 416 && ltb 0 offset)) [
          | inl e ↦ rw e (removed-Sound disk w.removes h, λ c. cc)
          | inr e ↦ rw e (h, λ c. cc)
        ])

  pub after_whole-Sound :
      (offset : ℕ) (disk : Option (List ℕ))
      → IsPartial source disk
      → Sound source (after_answer resume w offset (some (whole source)) disk)
  unfolding after_answer
  after_whole-Sound offset disk h = write_stream-Sound 0 (some (length source)) disk h

  pub after_partial-Sound :
      (n : ℕ)
      → 0 < length (take n source)
      → length (take n source) < length source
      → Sound source (
          after_answer resume w
            (length (take n source))
            (some (partial (length (take n source)) (last_of source) source))
            (some (take n source)))
  unfolding after_answer
  after_partial-Sound n positive lt =
      let first : ltb 0 (length (take n source)) ≡ true = ground arith in
      rw (first, rest-slice (length (take n source)) source lt)
        (subst
          (λ f. Sound source (
            write_stream resume w f
              (some (length (take n source) + (last_of source - length (take n source) + 1)))
              (drop (length (take n source)) source) (some (take n source))))
          (take-length-take n source)
          (write_stream-Sound (length (take n source)) _ (some (take n source)) (n, refl)))

  -- The answers to a request for the rest of a partial file.
  pub after_rest-Sound :
      (n : ℕ) (seeks : Bool)
      → length source < 2 ^ 63
      → 0 < length (take n source)
      → Sound source (
          after_answer resume w
            (length (take n source))
            (some (send_file seeks source (open_header (length (take n source)))))
            (some (take n source)))
  after_rest-Sound n seeks small positive =
      elim (Bool-cases (ltb (length (take n source)) (length source))) [
        | inl lt ↦
            rw (rest_sent seeks source (length (take n source)) small (ground arith))
              (sent seeks (ground arith))
        | inr ge ↦
            rw
              (rest_refused seeks source (length (take n source))
                (omega (arith, length-take n source)) (ground arith))
              (refused_at 416 (omega arith) (omega arith))
      ]
    where
      refused_at :
          (m : ℕ)
          → m ≢ 200
          → m ≢ 206
          → Sound source (
              after_answer resume w
                (length (take n source))
                (some (refused m))
                (some (take n source)))
      refused_at m p q = after_refusal-Sound _ m (some (take n source)) p q (n, refl)

      sent :
          (b : Bool)
          → length (take n source) < length source
          → Sound source (
              after_answer resume w
                (length (take n source))
                (some (
                  if b
                  then partial (length (take n source)) (last_of source) source
                  else refused 500))
                (some (take n source)))
      sent true lt = after_partial-Sound n positive lt
      sent false lt = refused_at 500 (omega arith) (omega arith)
