-- ===== src/Stdio/Lengths.antt =====
-- How much of the input the conversions of the C library leave.
use in_mem_db.Base.{
  refl, Bytes, [], ◌∷◌, ℕ, zero, suc, ◌≤◌, ◌<◌, ◌≡◌, length, some, none, false, Option, arith,
  is_space, ◌==◌, ◌*◌, inl, ◌⊎◌, ◌+◌, Bool-cases, inr, ◌-◌,
}
use in_mem_db.Stdio.{
  skip_space, scan_digits, scan_sign, scan_integer, scan_size, scan_long, take_word, scan_word,
  expect,
}

-- What is left behind a value that was read has at most `n` bytes.
abbrev pub Leaves {ℓ} : {A : Type ℓ} → ℕ → Option (A × Bytes) → Type 0
Leaves n none = Unit
Leaves n (some (a, rest)) = length rest ≤ n

length-skip_space : (s : Bytes) → length (skip_space s) ≤ length s
unfolding skip_space
length-skip_space [] = omega arith
length-skip_space (c ∷ s) = ground (arith, length-skip_space s)

length-scan_digits : (s : Bytes) (n : ℕ) → length (scan_digits s n).1 ≤ length s
unfolding scan_digits
length-scan_digits [] n = omega arith
length-scan_digits (c ∷ s) n = ground (arith, length-scan_digits s (n * 10 + (c - b'0')))

length-scan_sign : (s : Bytes) → length (scan_sign s).1 ≤ length s
unfolding scan_sign
length-scan_sign [] = omega arith
length-scan_sign (c ∷ s) = ground arith

scan_integer-rest : (s : Bytes) → length (scan_digits (scan_sign (skip_space s)).1 0).1 ≤ length s
scan_integer-rest s = omega (
  arith,
  length-scan_digits (scan_sign (skip_space s)).1 0,
  length-scan_sign (skip_space s),
  length-skip_space s,
)

pub scan_size-Leaves : (s : Bytes) → Leaves (length s) (scan_size s)
unfolding scan_size scan_integer
scan_size-Leaves s = ground (arith, scan_integer-rest s)

pub scan_long-Leaves : (s : Bytes) → Leaves (length s) (scan_long s)
unfolding scan_long scan_integer
scan_long-Leaves s = ground (arith, scan_integer-rest s)

length-take_word : (n : ℕ) (s : Bytes) → length (take_word n s).1 ≤ length s
unfolding take_word
length-take_word zero s = omega arith
length-take_word (suc n) [] = omega arith
length-take_word (suc n) (c ∷ s) = ground (arith, length-take_word n s)

-- The white space at the front is skipped: nothing is left, or a byte that is none.
pub skip_space-cases :
    (s : Bytes)
    → (skip_space s ≡ [])
      ⊎ ((c : ℕ) × (p : Bytes) × (skip_space s ≡ c ∷ p)
          × (is_space c ≡ false)
          × (length p < length s))
unfolding skip_space
skip_space-cases [] = inl refl
skip_space-cases (c ∷ s) = elim (Bool-cases (is_space c)) [
  | inl space ↦ elim (skip_space-cases s) [
    | inl h ↦ inl (rw space h)
    | inr (d, p, h, solid, less) ↦ inr (d, p, rw space h, solid, omega arith)
  ]
  | inr solid ↦ inr (c, s, rw solid, solid, omega arith)
]

-- A word that was read has taken a byte.
pub scan_word-Shorter :
    (n : ℕ) (s : Bytes)
    → (scan_word (suc n) s ≡ none)
      ⊎ ((word : Bytes) × (rest : Bytes) × (scan_word (suc n) s ≡ some (word, rest))
          × (length rest < length s))
unfolding scan_word take_word
scan_word-Shorter n s = elim (skip_space-cases s) [
  | inl h ↦ inl (rw (h, scan_word))
  | inr (c, p, h, solid, less) ↦ inr (
    c ∷ (take_word n p).0,
    (take_word n p).1,
    rw (h, solid, scan_word),
    omega (arith, length-take_word n p),
  )
]

pub scan_word-Leaves : (n : ℕ) (s : Bytes) → Leaves (length s) (scan_word (suc n) s)
scan_word-Leaves n s = elim (scan_word-Shorter n s) [
  | inl h ↦ rw h tt
  | inr (word, rest, h, less) ↦ rw h (omega arith)
]

-- `fgetc` takes a byte.
pub expect-cases :
    (c : ℕ) (s : Bytes)
    → (expect c s ≡ none) ⊎ ((rest : Bytes) × (expect c s ≡ some rest) × (length rest < length s))
unfolding expect
expect-cases c [] = inl refl
expect-cases c (d ∷ s) = elim (Bool-cases (d == c)) [
  | inl same ↦ inr (s, rw same, omega arith)
  | inr other ↦ inl (rw other)
]
