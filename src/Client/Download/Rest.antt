-- ===== src/Client/Download/Rest.antt =====
-- What the master sends to a worker that asks for the rest of a file.

use dark_stream.Server.Video.Ranges.{parse_byte_range-open_header, open_header}
use dark_stream.Client.Download.{Weather}
use dark_stream.Client.Retry.{Failure}
use dark_stream.Server.Video.{partial, refused, serve_video_range, send_file, slice, Reply}
use dark_stream.Common.{
  ap, ◌||◌, true, suc, refl, ltb, leb, if◌then◌else◌, false, ◌⊎◌, ◌≤◌, ◌≢◌, ◌≡◌, ◌∷◌, ℕ, take_all,
  take, some, none, length-drop, length, drop, arith, ◌^◌, [], Option, List, Bool, ◌<◌, ◌-◌,
}

-- What the master may answer to a Range header: what `send_file` sends of the source, or a refusal.
abbrev pub IsSent : List ℕ → List ℕ → Reply → Type 0
IsSent source header r =
    ((seeks : Bool) × (r ≡ send_file seeks source header))
    ⊎ ((n : ℕ) × (r ≡ refused n) × (n ≢ 200) × (n ≢ 206))

-- Each answer that comes is the master's.
abbrev pub Serves : List ℕ → Weather → Type 0
Serves source w = (header : List ℕ) (r : Reply) → w.answer header ≡ some r → IsSent source header r

-- The file is a beginning of the source.
abbrev pub IsPartial : List ℕ → Option (List ℕ) → Type 0
IsPartial source none = Unit
IsPartial source (some file) = (n : ℕ) × (file ≡ take n source)

abbrev pub Sound : List ℕ → Option Failure × Option (List ℕ) → Type 0
Sound source x = IsPartial source x.1 × (x.0 ≡ none → x.1 ≡ some source)

abbrev pub last_of : List ℕ → ℕ
last_of source = length source - 1

-- What is left of the source.
pub rest-slice :
    (k : ℕ) (source : List ℕ) → k < length source → slice k (last_of source) source ≡ drop k source
rest-slice k source h = take_all _ (drop k source) (omega (arith, length-drop k source))

-- The answers to a request for the rest.
module _ (seeks : Bool) where
  pub rest_sent :
      (source : List ℕ) (k : ℕ)
      → length source < 2 ^ 63
      → k < length source
      → send_file seeks source (open_header k)
        ≡ (if seeks then partial k (last_of source) source else refused 500)
  unfolding send_file serve_video_range
  rest_sent [] k small lt = absurd (omega arith)
  rest_sent (b ∷ bs) k small lt =
      let inside : (leb (suc (length bs)) k
            || ltb (length bs) k
            || leb (suc (length bs)) (length bs))
          ≡ false =
        ground arith in
      rw (parse_byte_range-open_header k (omega arith) (length (b ∷ bs)), inside)
        (ap (λ n. if seeks then partial k n (b ∷ bs) else refused 500) (pred (length bs)))
    where
      pred : (n : ℕ) → n ≡ suc n - 1
      pred n = omega arith

  pub rest_refused :
      (source : List ℕ) (k : ℕ)
      → k < 2 ^ 63
      → length source ≤ k
      → send_file seeks source (open_header k) ≡ refused 416
  unfolding send_file serve_video_range
  rest_refused [] k small le = rw (parse_byte_range-open_header k small 0) refl
  rest_refused (b ∷ bs) k small le =
      let outside : (leb (suc (length bs)) k
            || ltb (length bs) k
            || leb (suc (length bs)) (length bs))
          ≡ true =
        ground arith in
      rw (parse_byte_range-open_header k small (length (b ∷ bs)), outside) refl
