-- ===== src/Stdio/Decimal.antt =====
-- `%zu` and `%lld` of the C library, printed and scanned.
use in_mem_db.Base.{
  ℕ, zero, suc, Bytes, ◌≡◌, arith, refl, ◌<◌, ◌++◌, is_digit, ◌≤◌, false, is_space, ◌∷◌, ℤ, ◌^◌,
  some, Fits64, [], ◌/◌, Bool-cases, true, ◌-◌, ◌∙◌, ltb, ◌+◌, pos, ◌%◌, negsuc, inl, inr,
}
use in_mem_db.Stdio.{
  digits, print_size, print_long, skip_space, scan_digits, starts_with_digit, scan_sign,
  scan_integer, scan_size, scan_long,
}

scan_digits-digits :
    (f n : ℕ) (out rest : Bytes)
    → n < f
    → scan_digits (digits f n out ++ rest) 0 ≡ scan_digits (out ++ rest) n
unfolding digits scan_digits is_digit
scan_digits-digits zero n out rest h = absurd (omega arith)
scan_digits-digits (suc f) n out rest h =
    ground (arith, scan_digits-digits f (n / 10) ((b'0' + n % 10) ∷ out) rest)

-- The print begins with a digit.
digits-head :
    (f n : ℕ) (out : Bytes)
    → n < f
    → (c : ℕ) × (s : Bytes) × (digits f n out ≡ c ∷ s) × (b'0' ≤ c) × (c ≤ b'9')
unfolding digits
digits-head zero n out h = absurd (omega arith)
digits-head (suc f) n out h = elim (Bool-cases (ltb n 10)) [
  | inl small ↦ (b'0' + n % 10, out, rw small, omega arith, omega arith)
  | inr large ↦ rw large (digits-head f (n / 10) ((b'0' + n % 10) ∷ out) (ground arith))
]

-- What follows the number is no digit.
abbrev pub NoDigit : Bytes → Type 0
NoDigit s = starts_with_digit s ≡ false

scan_digits-stop : (s : Bytes) (n : ℕ) → NoDigit s → scan_digits s n ≡ (n, s)
unfolding scan_digits starts_with_digit
scan_digits-stop [] n h = refl
scan_digits-stop (c ∷ s) n h = rw h

scan_print :
    (n : ℕ) (rest : Bytes) → NoDigit rest → scan_digits (print_size n ++ rest) 0 ≡ (n, rest)
unfolding print_size
scan_print n rest h = scan_digits-digits (suc n) n [] rest (omega arith) ∙ scan_digits-stop rest n h

-- No white space or sign stands in front of a digit.
scan_sign-digit :
    (c : ℕ) (s : Bytes) → b'0' ≤ c → c ≤ b'9' → scan_sign (skip_space (c ∷ s)) ≡ (false, c ∷ s)
unfolding scan_sign skip_space is_space
scan_sign-digit c s lo hi = ground arith

print-sign :
    (n : ℕ) (rest : Bytes)
    → scan_sign (skip_space (print_size n ++ rest)) ≡ (false, print_size n ++ rest)
unfolding print_size
print-sign n rest =
    let (c, s, e, lo, hi) = digits-head (suc n) n [] (omega arith) in
    rw e (scan_sign-digit c (s ++ rest) lo hi)

print-starts : (n : ℕ) (rest : Bytes) → starts_with_digit (print_size n ++ rest) ≡ true
unfolding print_size starts_with_digit is_digit
print-starts n rest =
    let (c, s, e, lo, hi) = digits-head (suc n) n [] (omega arith) in rw e (ground arith)

pub scan_integer-print :
    (n : ℕ) (rest : Bytes)
    → NoDigit rest
    → scan_integer (print_size n ++ rest) ≡ some (false, n, rest)
unfolding scan_integer
scan_integer-print n rest h = rw (print-sign n rest, print-starts n rest, scan_print n rest h)

pub scan_integer-minus :
    (n : ℕ) (rest : Bytes)
    → NoDigit rest
    → scan_integer (b'-' ∷ print_size n ++ rest) ≡ some (true, n, rest)
unfolding scan_integer skip_space is_space scan_sign
scan_integer-minus n rest h = rw (print-starts n rest, scan_print n rest h)

-- A `size_t` is read back from its print.
pub scan_size-print :
    (n : ℕ) (rest : Bytes)
    → n ≤ 2 ^ 64 - 1
    → NoDigit rest
    → scan_size (print_size n ++ rest) ≡ some (n, rest)
unfolding scan_size
scan_size-print n rest fits h = rw (scan_size, scan_integer-print n rest h) (ground arith)

-- A `long long` is read back from its print, of either sign.
pub scan_long-print :
    (x : ℤ) (rest : Bytes)
    → Fits64 x
    → NoDigit rest
    → scan_long (print_long x ++ rest) ≡ some (x, rest)
unfolding scan_long print_long
scan_long-print (pos n) rest fits h = rw (scan_long, scan_integer-print n rest h) (ground arith)
scan_long-print (negsuc n) rest fits h =
    rw (scan_long, scan_integer-minus (suc n) rest h) (ground arith)
