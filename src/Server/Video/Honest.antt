-- ===== src/Server/Video/Honest.antt =====
-- Whatever a Range header says, an answer carries bytes of the file and says truly which.
use dark_stream.Server.Video.{
  partial, slice, parse_byte_range, serve_video_range, send_file, serve_range, whole, refused,
  Reply, or_whole,
}
use dark_stream.Common.{
  sym, ◌||◌, ltb, leb, if◌then◌else◌, Bool-cases, length-drop, drop, length-take, arith, ◌+◌, ◌∙◌,
  ◌-◌, ◌<◌, ◌≤◌, ◌⊎◌, ◌≡◌, ◌∷◌, ℤ, ℕ, true, some, refl, pos, none, negsuc, length, inr, inl, false,
  [], Option, List, Bool,
}
use mathlib.Core.Option

-- What an answer says of itself holds of its body.
pub record IsHonest (file : List ℕ) (r : Reply) : Type 0 where
  pub declared : (n : ℕ) → r.content_length ≡ some n → length r.body ≡ n
  pub ranged :
      (start end size : ℕ)
      → r.content_range ≡ some (start, end, size)
      → (r.code ≡ 206)
        × (start ≤ end)
        × (end < length file)
        × (size ≡ length file)
        × (r.body ≡ slice start end file)
  pub unranged :
      r.content_range ≡ none
      → ((r.code ≡ 200) × (r.body ≡ file)) ⊎ (((r.code ≡ 416) ⊎ (r.code ≡ 500)) × (r.body ≡ []))

pub length-slice :
    (start end : ℕ) (file : List ℕ)
    → start ≤ end
    → end < length file
    → length (slice start end file) ≡ end - start + 1
length-slice start end file h k =
    omega (arith, length-take (end - start + 1) (drop start file), length-drop start file)

partial-IsHonest :
    (start end : ℕ) (file : List ℕ)
    → start ≤ end
    → end < length file
    → IsHonest file (partial start end file)
partial-IsHonest start end file h k = record {
  declared = λ n e. length-slice start end file h k ∙ cc;
  ranged = λ a b c e.
      let first : start ≡ a = cc in
      let last : end ≡ b = cc in
      let size : length file ≡ c = cc in (refl, omega arith, omega arith, sym size, cc);
  unranged = λ e. cc;
}

refused-IsHonest : (n : ℕ) (file : List ℕ) → (n ≡ 416) ⊎ (n ≡ 500) → IsHonest file (refused n)
refused-IsHonest n file h = record {
  declared = λ m e. cc;
  ranged = λ a b c e. cc;
  unranged = λ e. inr (h, refl);
}

whole-IsHonest : (file : List ℕ) → IsHonest file (whole file)
whole-IsHonest file = record {
  declared = λ m e. cc;
  ranged = λ a b c e. cc;
  unranged = λ e. inl (refl, refl);
}

sought-IsHonest :
    (seeks : Bool) (start end : ℕ) (file : List ℕ)
    → start ≤ end
    → end < length file
    → IsHonest file (if seeks then partial start end file else refused 500)
sought-IsHonest true start end file h k = partial-IsHonest start end file h k
sought-IsHonest false start end file h k = refused-IsHonest 500 file (inr refl)

serve_range-IsHonest :
    (seeks : Bool) (file : List ℕ) (range : ℤ × ℤ) → IsHonest file (serve_range seeks file range)
serve_range-IsHonest seeks file (pos start, pos end) =
    elim (Bool-cases (leb (length file) start || ltb end start || leb (length file) end)) [
      | inl e ↦ rw e (refused-IsHonest 416 file (inl refl))
      | inr e ↦ rw e (sought-IsHonest seeks start end file (ground arith) (ground arith))
    ]
serve_range-IsHonest seeks file (negsuc _, end) = refused-IsHonest 416 file (inl refl)
serve_range-IsHonest seeks file (pos start, negsuc _) = refused-IsHonest 416 file (inl refl)

or_whole-IsHonest :
    (seeks : Bool) (file : List ℕ) (o : Option (ℤ × ℤ))
    → IsHonest file (or_whole file (Option.map (serve_range seeks file) o))
or_whole-IsHonest seeks file none = whole-IsHonest file
or_whole-IsHonest seeks file (some range) = serve_range-IsHonest seeks file range

-- Whatever the Range header is, and whether the file can be positioned or not, the answer has status 200 and the
-- whole file, status 416 or 500 and no bytes, or status 206 with just the bytes that its Content-Range names,
-- which lie within the file; and a declared length is the length of the body.
pub send_file-IsHonest :
    (seeks : Bool) (file header : List ℕ) → IsHonest file (send_file seeks file header)
unfolding send_file serve_video_range
send_file-IsHonest seeks file [] = whole-IsHonest file
send_file-IsHonest seeks file (c ∷ cs) =
    or_whole-IsHonest seeks file (parse_byte_range (c ∷ cs) (length file))
