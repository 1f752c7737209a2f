-- ===== src/Text/Decimal.antt =====
-- What is printed in decimal is read back.
use dark_stream.Common.{
  ◌==◌, ◌∙◌, ◌<◌, ℕ, zero, suc, ◌+◌, ◌*◌, ◌/◌, ◌%◌, ◌≤◌, ◌^◌, ◌≡◌, refl, Bool, true, false, List,
  [], ◌∷◌, ◌++◌, some, arith, pos,
}
use dark_stream.Text.{is_digit, emit, print_decimal, read_digits, scan_number, scan_int, in_range}

-- Whether the text goes on with a digit.
abbrev pub starts_with_digit : List ℕ → Bool
starts_with_digit [] = false
starts_with_digit (c ∷ s) = is_digit c

emit-append : (f n : ℕ) (out rest : List ℕ) → emit f n out ++ rest ≡ emit f n (out ++ rest)
unfolding emit
emit-append zero n out rest = refl
emit-append (suc f) n out rest = ground (arith, emit-append f (n / 10) ((b'0' + n % 10) ∷ out) rest)

read_digit :
    (m d : ℕ) (s : List ℕ) → d ≤ 9 → read_digits m ((b'0' + d) ∷ s) ≡ read_digits (m * 10 + d) s
unfolding read_digits
read_digit m d s h = ground arith

-- Each round moves the last digit over, and reading it moves it back.
read_digits-emit :
    (f n : ℕ) (out : List ℕ) → n ≤ f → read_digits 0 (emit f n out) ≡ read_digits n out
unfolding emit
read_digits-emit zero n out h = rw (eq_zero n h)
  where
    eq_zero : (n : ℕ) → n ≤ 0 → n ≡ 0
    eq_zero n h = omega arith
read_digits-emit (suc f) n out h =
    ground
      (arith, read_digits-emit f (n / 10) ((b'0' + n % 10) ∷ out), read_digit (n / 10) (n % 10) out)

starts-emit :
    (f n : ℕ) (out : List ℕ)
    → starts_with_digit out ≡ true
    → starts_with_digit (emit f n out) ≡ true
unfolding emit
starts-emit zero n out h = h
starts-emit (suc f) n out h = ground (arith, starts-emit f (n / 10) ((b'0' + n % 10) ∷ out))

starts-emit-suc : (f n : ℕ) (rest : List ℕ) → 0 < n → starts_with_digit (emit (suc f) n rest) ≡ true
unfolding emit
starts-emit-suc f n rest h =
    let positive : (n == 0) ≡ false = ground arith in
    rw positive (starts-emit f (n / 10) ((b'0' + n % 10) ∷ rest) (ground arith))

print_decimal_onto :
    (n : ℕ) (rest : List ℕ) → print_decimal (suc n) ++ rest ≡ emit (suc n) (suc n) rest
unfolding print_decimal
print_decimal_onto n rest =
    let positive : (suc n == 0) ≡ false = ground arith in
    rw positive (emit-append (suc n) (suc n) [] rest)

starts-print_decimal : (n : ℕ) (rest : List ℕ) → starts_with_digit (print_decimal n ++ rest) ≡ true
starts-print_decimal zero rest = unfold print_decimal in refl
starts-print_decimal (suc n) rest =
    rw (print_decimal_onto n rest) (starts-emit-suc n (suc n) rest (omega arith))

read_digits-print_decimal :
    (n : ℕ) (rest : List ℕ) → read_digits 0 (print_decimal n ++ rest) ≡ read_digits n rest
read_digits-print_decimal zero rest = unfold print_decimal in unfold read_digits in refl
read_digits-print_decimal (suc n) rest =
    rw (print_decimal_onto n rest) (read_digits-emit (suc n) (suc n) rest (omega arith))

read_digits_stop : (n : ℕ) (s : List ℕ) → starts_with_digit s ≡ false → read_digits n s ≡ (n, s)
unfolding read_digits
read_digits_stop n [] h = refl
read_digits_stop n (c ∷ s) h = rw h

scan_int_digits :
    (s : List ℕ) → starts_with_digit s ≡ true → scan_int s ≡ in_range false (read_digits 0 s)
unfolding scan_int
scan_int_digits [] h = cc
scan_int_digits (c ∷ s) h = ground arith

-- What `%d` prints is read back by `%d`, whatever follows that is no digit.
pub scan_int-print_decimal :
    (n : ℕ) (rest : List ℕ)
    → n < 2 ^ 63
    → starts_with_digit rest ≡ false
    → scan_int (print_decimal n ++ rest) ≡ some (pos n, rest)
scan_int-print_decimal n rest small stop =
    scan_int_digits _ (starts-print_decimal n rest)
    ∙ rw (read_digits-print_decimal n rest, read_digits_stop n rest stop) (ground arith)

-- A minus sign first.
pub scan_int_minus : (s : List ℕ) → scan_int (b'-' ∷ s) ≡ scan_number true s
unfolding scan_int
scan_int_minus s = refl
