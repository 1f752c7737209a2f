-- ===== src/Text.antt =====
-- Texts as code points, and what the program uses of Go's package fmt: `%d` for printing and `Sscanf`.
pub mod Decimal
use dark_stream.Common.{
  false, true, ℕ, zero, suc, ◌+◌, ◌-◌, ◌*◌, ◌/◌, ◌%◌, ◌^◌, Bool, ◌&&◌, ◌||◌, List, [], ◌∷◌, Option,
  none, some, if◌then◌else◌, ltb, leb, ◌==◌, ℤ, pos, negsuc,
}

abbrev pub between : ℕ → ℕ → ℕ → Bool
between low high c = leb low c && leb c high

abbrev pub is_digit : ℕ → Bool
is_digit c = between b'0' b'9' c

-- `n` in decimal in front of `out`. A number has no more digits than its value, which is the fuel.
unfoldable pub emit : ℕ → ℕ → List ℕ → List ℕ
emit zero n out = out
emit (suc f) n out =
    let rest = emit f (n / 10) ((b'0' + n % 10) ∷ out) in if n == 0 then out else rest

unfoldable pub print_decimal : ℕ → List ℕ
print_decimal n = if n == 0 then b'0' ∷ [] else emit n n []

-- The number that the digits in front spell behind `n`, and the rest.
unfoldable pub read_digits : ℕ → List ℕ → ℕ × List ℕ
read_digits n [] = (n, [])
read_digits n (c ∷ s) =
    let more = read_digits (n * 10 + (c - b'0')) s in if is_digit c then more else (n, c ∷ s)

-- fmt's isSpace.
abbrev pub is_space : ℕ → Bool
is_space c =
    between 0x9 0xd c
    || c == 0x20
    || c == 0x85
    || c == 0xa0
    || c == 0x1680
    || between 0x2000 0x200a c
    || c == 0x2028
    || c == 0x2029
    || c == 0x202f
    || c == 0x205f
    || c == 0x3000

-- A newline is an error.
unfoldable pub skip_space : List ℕ → Option (List ℕ)
skip_space [] = some []
skip_space (c ∷ s) =
    let more = skip_space s in if c == 0xa then none else if is_space c then more else some (c ∷ s)

abbrev max_int64 : ℕ
max_int64 = 2 ^ 63 - 1

-- The range of an int64.
abbrev pub in_range : Bool → ℕ × List ℕ → Option (ℤ × List ℕ)
in_range negative (n, s) =
    if negative
    then if ltb (2 ^ 63) n
      then none
      else if n == 0
      then some (pos 0, s)
      else some (negsuc (n - 1), s)
    else if ltb max_int64 n
    then none
    else some (pos n, s)

-- At least one digit.
unfoldable pub scan_number : Bool → List ℕ → Option (ℤ × List ℕ)
unfolding read_digits
scan_number negative [] = none
scan_number negative (c ∷ s) =
    if is_digit c then in_range negative (read_digits 0 (c ∷ s)) else none

unfoldable pub scan_signed : List ℕ → Option (ℤ × List ℕ)
unfolding scan_number
scan_signed [] = none
scan_signed (c ∷ s) =
    if c == b'-'
    then scan_number true s
    else if c == b'+'
    then scan_number false s
    else scan_number false (c ∷ s)

unfoldable pub scan_int : List ℕ → Option (ℤ × List ℕ)
unfolding skip_space scan_signed
scan_int s = elim (skip_space s) [ none ↦ none | some r ↦ scan_signed r ]

unfoldable pub strip_prefix : List ℕ → List ℕ → Option (List ℕ)
strip_prefix [] s = some s
strip_prefix (p ∷ ps) [] = none
strip_prefix (p ∷ ps) (c ∷ cs) = let rest = strip_prefix ps cs in if p == c then rest else none

pub data Verb : Type 0 where
  literal : List ℕ → Verb
  decimal : Verb

-- The values that `Sscanf` stores before the text ends or does not match.
unfoldable pub sscanf : List Verb → List ℕ → List ℤ
sscanf [] s = []
sscanf (literal t ∷ verbs) s = elim (strip_prefix t s) [ none ↦ [] | some r ↦ sscanf verbs r ]
sscanf (decimal ∷ verbs) s = elim (scan_int s) [ none ↦ [] | some r ↦ r.0 ∷ sscanf verbs r.1 ]
