-- ===== src/Client/Download/Resume.antt =====
-- Against the master of this repository, a download that may break off anywhere and be resumed.
use dark_stream.Client.Retry.Invariant.{retry-Inv}
use dark_stream.Client.Download.Stream.{after_refusal-Sound, after_rest-Sound, after_whole-Sound}
use dark_stream.Client.Download.Rest.{Sound, IsPartial, Serves}
use dark_stream.Client.Download.{
  download_source_video, download_attempt, start_offset, range_header, after_answer, Weather,
}
use dark_stream.Client.Retry.{is_permanent_http_error, succeeded, failure}
use dark_stream.Server.Video.{send_file, Reply}
use dark_stream.Common.{
  subst, ◌==◌, true, sym, refl, inr, inl, if◌then◌else◌, false, Bool-cases, ◌≡◌, ℕ, take, some,
  none, length, arith, ◌^◌, Option, List, Bool, ◌<◌,
}

-- An attempt against the master leaves a beginning of the source, and the whole source if it succeeds.
module _ (source : List ℕ) (small : length source < 2 ^ 63) (w : Weather)
    (serves : Serves source w) where
  after_sent-Sound :
      (resume : Bool) (disk : Option (List ℕ)) (o : Option Reply)
      → IsPartial source disk
      → w.answer (range_header (start_offset resume disk)) ≡ o
      → ((seeks : Bool)
          → Sound source (
              after_answer resume w
                (start_offset resume disk)
                (some (send_file seeks source (range_header (start_offset resume disk))))
                disk))
      → Sound source (after_answer resume w (start_offset resume disk) o disk)
  after_sent-Sound resume disk none h e sent = unfold after_answer in (h, λ c. cc)
  after_sent-Sound resume disk (some r) h e sent = elim (serves _ r e) [
    | inl (seeks, same) ↦ rw same (sent seeks)
    | inr (n, same, p, q) ↦ rw same (after_refusal-Sound source resume w _ n disk p q h)
  ]

  fresh-Sound :
      (resume : Bool) (disk : Option (List ℕ))
      → IsPartial source disk
      → start_offset resume disk ≡ 0
      → Sound source (
          after_answer resume w
            (start_offset resume disk)
            (w.answer (range_header (start_offset resume disk)))
            disk)
  unfolding send_file
  fresh-Sound resume disk h e =
      after_sent-Sound resume disk _ h refl
        λ seeks. rw e (after_whole-Sound source resume w 0 disk h)

  resumed-Sound :
      (n : ℕ)
      → Sound source (
          after_answer true w
            (length (take n source))
            (w.answer (range_header (length (take n source))))
            (some (take n source)))
  resumed-Sound n = elim (Bool-cases (length (take n source) == 0)) [
    | inl e ↦ fresh-Sound true (some (take n source)) (n, refl) (ground arith)
    | inr e ↦
        after_sent-Sound true (some (take n source)) _ (n, refl) refl
          λ seeks. rw e (after_rest-Sound source true w n seeks small (ground arith))
  ]

  answered-Sound :
      (resume : Bool) (disk : Option (List ℕ))
      → IsPartial source disk
      → Sound source (
          after_answer resume w
            (start_offset resume disk)
            (w.answer (range_header (start_offset resume disk)))
            disk)
  answered-Sound resume none h = fresh-Sound resume none h refl
  answered-Sound false (some f) h = fresh-Sound false (some f) h refl
  answered-Sound true (some f) (n, e) =
      subst
        (λ g.
          Sound source
            (after_answer true w (length g) (w.answer (range_header (length g))) (some g)))
        (sym e) (resumed-Sound n)

  pub download_attempt-Sound :
      (resume : Bool) (disk : Option (List ℕ))
      → IsPartial source disk
      → Sound source (download_attempt resume w disk)
  unfolding download_attempt
  download_attempt-Sound resume disk h = prepared w.prepares
    where
      prepared :
          (b : Bool)
          → Sound source (
              if b
              then after_answer resume w
                  (start_offset resume disk)
                  (w.answer (range_header (start_offset resume disk)))
                  disk
              else (some failure, disk))
      prepared true = answered-Sound resume disk h
      prepared false = (h, λ c. cc)

-- The master may break off, refuse or send all of its answers, requests may fail, and files may refuse to be
-- opened or removed, in each attempt anew. From a beginning of the source, or nothing, a download leaves a beginning of
-- the source or nothing; and if it ends with success, the file is the source.
pub download_source_video_sound :
    (source : List ℕ) (resume : Bool) (cancels : ℕ → Bool) (weather : ℕ → Weather)
    (disk : Option (List ℕ))
    → length source < 2 ^ 63
    → ((k : ℕ) → Serves source (weather k))
    → IsPartial source disk
    → IsPartial source (download_source_video resume cancels weather disk).state
      × ((download_source_video resume cancels weather disk).ending ≡ succeeded
          → (download_source_video resume cancels weather disk).state ≡ some source)
unfolding download_source_video
download_source_video_sound source resume cancels weather disk small serves h =
    retry-Inv is_permanent_http_error cancels _ (IsPartial source) (λ d. d ≡ some source)
      (λ k d i. download_attempt-Sound source small (weather k) (serves k) resume d i) disk h
