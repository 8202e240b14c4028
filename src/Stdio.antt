-- ===== src/Stdio.antt =====
-- What the code uses of the C library to print and read numbers and words: the conversions %zu,
-- %lld and %Ns of <stdio.h>, `strtoll`, `fgetc` and `fread`. An input stream is the bytes that are
-- left of it.
pub mod Decimal
pub mod Lengths
use in_mem_db.Base.{
  ℕ, zero, suc, ◌+◌, ◌-◌, ◌*◌, ◌/◌, ◌%◌, ◌^◌, Bool, true, false, not, Option, none, some, List, [],
  ◌∷◌, ◌++◌, Bytes, ℤ, pos, negsuc, ltb, leb, ◌==◌, ◌&&◌, if◌then◌else◌, is_space, is_digit, length,
  take, drop,
}

-- `%zu`: the digits of `n` in front of `out`, with fuel above `n`.
unfoldable pub digits : ℕ → ℕ → Bytes → Bytes
digits zero n out = out
digits (suc f) n out =
    let rest = digits f (n / 10) ((b'0' + n % 10) ∷ out) in
    if ltb n 10 then (b'0' + n % 10) ∷ out else rest

unfoldable pub print_size : ℕ → Bytes
print_size n = digits (suc n) n []

-- `%lld`
unfoldable pub print_long : ℤ → Bytes
print_long (pos n) = print_size n
print_long (negsuc n) = b'-' ∷ print_size (suc n)

unfoldable pub skip_space : Bytes → Bytes
skip_space [] = []
skip_space (c ∷ s) = if is_space c then skip_space s else c ∷ s

-- The digits at the front, read behind `n`, and what follows them.
unfoldable pub scan_digits : Bytes → ℕ → ℕ × Bytes
scan_digits [] n = (n, [])
scan_digits (c ∷ s) n = if is_digit c then scan_digits s (n * 10 + (c - b'0')) else (n, c ∷ s)

unfoldable pub starts_with_digit : Bytes → Bool
starts_with_digit [] = false
starts_with_digit (c ∷ s) = is_digit c

-- The sign at the front, if there is one: whether it is a minus, and what follows it.
unfoldable pub scan_sign : Bytes → Bool × Bytes
scan_sign [] = (false, [])
scan_sign (c ∷ s) =
    if c == b'-' then (true, s) else if c == b'+' then (false, s) else (false, c ∷ s)

-- White space, a sign and digits: the sign, the magnitude, the rest. `none` if there is no digit.
unfoldable pub scan_integer : Bytes → Option (Bool × ℕ × Bytes)
scan_integer s =
    let (minus, s') = scan_sign (skip_space s) in
    let (n, rest) = scan_digits s' 0 in if starts_with_digit s' then some (minus, n, rest) else none

-- `%zu` reads as `strtoul`: a minus negates modulo 2 ^ 64, a number out of range is the largest.
unfoldable pub to_size : Bool → ℕ → ℕ
to_size minus n =
    if ltb (2 ^ 64 - 1) n then 2 ^ 64 - 1 else if minus then (2 ^ 64 - n) % 2 ^ 64 else n

-- `%lld` and `strtoll`: a number out of range is the nearest in range.
unfoldable pub to_long : Bool → ℕ → ℤ
to_long false n = if ltb (2 ^ 63 - 1) n then pos (2 ^ 63 - 1) else pos n
to_long true zero = pos 0
to_long true (suc n) = if leb (2 ^ 63) n then negsuc (2 ^ 63 - 1) else negsuc n

unfoldable pub scan_size : Bytes → Option (ℕ × Bytes)
unfolding to_size
scan_size s = elim (scan_integer s) [
  | some (minus, n, rest) ↦ some (to_size minus n, rest)
  | none ↦ none
]

unfoldable pub scan_long : Bytes → Option (ℤ × Bytes)
unfolding to_long
scan_long s = elim (scan_integer s) [
  | some (minus, n, rest) ↦ some (to_long minus n, rest)
  | none ↦ none
]

-- At most `n` bytes that are no white space, and the rest.
unfoldable pub take_word : ℕ → Bytes → Bytes × Bytes
take_word zero s = ([], s)
take_word (suc n) [] = ([], [])
take_word (suc n) (c ∷ s) =
    let (word, rest) = take_word n s in if is_space c then ([], c ∷ s) else (c ∷ word, rest)

-- `%Ns`: `none` at the end of the input.
unfoldable pub scan_word : ℕ → Bytes → Option (Bytes × Bytes)
unfolding take_word
scan_word n s = elim (skip_space s) [ [] ↦ none | c ∷ s' ↦ some (take_word n (c ∷ s')) ]

-- `fgetc(file) == c`: what follows, if the next byte is `c`.
unfoldable pub expect : ℕ → Bytes → Option Bytes
expect c [] = none
expect c (d ∷ s) = if d == c then some s else none

-- `fread(buffer, 1, n, file)`: what was read, and the rest.
unfoldable pub fread : ℕ → Bytes → Bytes × Bytes
fread n s = (take n s, drop n s)
