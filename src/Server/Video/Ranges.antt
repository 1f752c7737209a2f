-- ===== src/Server/Video/Ranges.antt =====
-- How the header that the client prints is read.
use mathlib.Core.List.{append-nil}
use dark_stream.Text.Decimal.{scan_int-print_decimal, starts_with_digit}
use dark_stream.Server.{codes}
use dark_stream.Server.Video.{last_byte, parse_byte_range}
use dark_stream.Text.{scan_int, decimal, literal, print_decimal, Verb, sscanf, strip_prefix}
use dark_stream.Common.{
  ◌∙◌, sym, ap, ◌≡◌, ◌∷◌, ℕ, some, refl, pos, false, arith, ◌^◌, [], List, ◌<◌, ◌++◌,
}

-- The header that asks for all but the first `start` bytes.
abbrev pub open_header : ℕ → List ℕ
open_header start = codes "bytes=" ++ (print_decimal start ++ codes "-")

strip_own : (t s : List ℕ) → strip_prefix t (t ++ s) ≡ some s
unfolding strip_prefix
strip_own [] s = refl
strip_own (c ∷ t) s = ground (arith, strip_own t s)

sscanf_literal :
    (t : List ℕ) (verbs : List Verb) (s : List ℕ)
    → sscanf (literal t ∷ verbs) (t ++ s) ≡ sscanf verbs s
unfolding sscanf
sscanf_literal t verbs s = rw (strip_own t s, sscanf) refl

sscanf_decimal :
    (verbs : List Verb) (n : ℕ) (s : List ℕ)
    → n < 2 ^ 63
    → starts_with_digit s ≡ false
    → sscanf (decimal ∷ verbs) (print_decimal n ++ s) ≡ pos n ∷ sscanf verbs s
unfolding sscanf
sscanf_decimal verbs n s small stop = rw (scan_int-print_decimal n s small stop, sscanf) refl

sscanf_end : (s : List ℕ) → sscanf [] s ≡ []
unfolding sscanf
sscanf_end s = refl

sscanf_last : (n : ℕ) → n < 2 ^ 63 → sscanf (decimal ∷ []) (print_decimal n) ≡ pos n ∷ []
sscanf_last n small =
    ap (sscanf (decimal ∷ [])) (sym (append-nil (print_decimal n)))
    ∙ sscanf_decimal [] n [] small refl
    ∙ ap (λ r. pos n ∷ r) (sscanf_end [])

abbrev dash_last : List Verb
dash_last = literal (codes "-") ∷ decimal ∷ []

no_number : sscanf dash_last (codes "-") ≡ []
unfolding sscanf strip_prefix scan_int
no_number = refl

no_more : sscanf (literal (codes "-") ∷ []) (codes "-") ≡ []
unfolding sscanf strip_prefix
no_more = refl

module _ (start : ℕ) (small : start < 2 ^ 63) where
  sscanf_start :
      (verbs : List Verb) (s : List ℕ)
      → starts_with_digit s ≡ false
      → sscanf
          (literal (codes "bytes=") ∷ decimal ∷ verbs)
          (codes "bytes=" ++ (print_decimal start ++ s))
        ≡ pos start ∷ sscanf verbs s
  sscanf_start verbs s stop =
      sscanf_literal (codes "bytes=") (decimal ∷ verbs) _ ∙ sscanf_decimal verbs start s small stop

  pub parse_byte_range-open_header :
      (size : ℕ) → parse_byte_range (open_header start) size ≡ some (pos start, last_byte size)
  unfolding parse_byte_range
  parse_byte_range-open_header size = rw (first, second) refl
    where
      first :
          sscanf (literal (codes "bytes=") ∷ decimal ∷ dash_last) (open_header start)
          ≡ pos start ∷ []
      first = sscanf_start dash_last (codes "-") refl ∙ ap (λ r. pos start ∷ r) no_number

      second :
          sscanf (literal (codes "bytes=") ∷ decimal ∷ literal (codes "-") ∷ []) (open_header start)
          ≡ pos start ∷ []
      second =
          sscanf_start (literal (codes "-") ∷ []) (codes "-") refl ∙ ap (λ r. pos start ∷ r) no_more
