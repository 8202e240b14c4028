-- ===== src/Command/Parse.antt =====
-- `parse_command` of src/command.c: its fuel, and the lines that it takes apart again.
use in_mem_db.Base.{
  Bytes, List, [], ◌∷◌, ◌++◌, ℕ, zero, suc, ◌+◌, ◌≤◌, ◌<◌, ◌≡◌, ap, length, if◌then◌else◌, some,
  none, Bool, true, false, Option, arith, refl, ◌==◌, ltb, is_space, Bool-cases, Option-cases, inl,
  inr, codes, All, length-append, ◌≢◌, ◌∙◌, sym,
}
use in_mem_db.Stdio.{skip_space}
use in_mem_db.Stdio.Lengths.{skip_space-cases}
use in_mem_db.Command.{
  ended, prepend_to, max_args, scan_quoted, scan_bare, scan_argument, parse_from, parse_command,
  prepend,
}

-- What follows an argument is shorter than `n` bytes.
abbrev Shorter : ℕ → Option (Bytes × Bytes) → Type 0
Shorter n none = Unit
Shorter n (some (argument, rest)) = length rest < n

Shorter-≤ : (m n : ℕ) (o : Option (Bytes × Bytes)) → m ≤ n → Shorter m o → Shorter n o
Shorter-≤ m n none le h = tt
Shorter-≤ m n (some (a, r)) le h = omega arith

quoted_step :
    (c : ℕ) (p : Bytes) (b : Bool) (more : Option (Bytes × Bytes))
    → Shorter (length p) more
    → Shorter (suc (length p)) (
        if b
        then some ([], p)
        else elim more [ none ↦ none | some (argument, rest) ↦ some (c ∷ argument, rest) ])
quoted_step c p true more h = omega arith
quoted_step c p false none h = tt
quoted_step c p false (some (a, r)) h = omega arith

scan_quoted-Shorter : (p : Bytes) → Shorter (length p) (scan_quoted p)
unfolding scan_quoted
scan_quoted-Shorter [] = tt
scan_quoted-Shorter (c ∷ p) = quoted_step c p (c == b'"') (scan_quoted p) (scan_quoted-Shorter p)

length-scan_bare : (p : Bytes) → length (scan_bare p).1 ≤ length p
unfolding scan_bare
length-scan_bare [] = omega arith
length-scan_bare (c ∷ p) = ground (arith, length-scan_bare p)

scan_argument-Shorter :
    (c : ℕ) (p : Bytes) → is_space c ≡ false → Shorter (suc (length p)) (scan_argument c p)
unfolding scan_argument scan_bare
scan_argument-Shorter c p solid = elim (Bool-cases (c == b'"')) [
  | inl quote ↦
      rw quote (
        Shorter-≤ (length p) (suc (length p)) (scan_quoted p) (omega arith) (scan_quoted-Shorter p))
  | inr bare ↦ rw (bare, solid) (omega (arith, length-scan_bare p))
]

parse_from-fuel :
    (f g argc : ℕ) (input : Bytes)
    → length input < f
    → length input < g
    → parse_from f argc input ≡ parse_from g argc input
unfolding parse_from
parse_from-fuel zero g argc input hf hg = absurd (omega arith)
parse_from-fuel (suc f) zero argc input hf hg = absurd (omega arith)
parse_from-fuel (suc f) (suc g) argc input hf hg = elim (skip_space-cases input) [
  | inl h ↦ rw (h, parse_from)
  | inr (c, p, h, solid, less) ↦ elim (Bool-cases (ltb argc max_args)) [
    | inr full ↦ rw (h, full, parse_from)
    | inl room ↦ elim (Option-cases (scan_argument c p)) [
      | inl bad ↦ rw (h, room, bad, parse_from)
      | inr ((a, r), good) ↦
          let shorter : length r < suc (length p) = rw good at (scan_argument-Shorter c p solid) in
          rw (h, room, good, parse_from)
            (ap (prepend_to a) (parse_from-fuel f g (argc + 1) r (omega arith) (omega arith)))
    ]
  ]
]

-- With fuel above the number of bytes the loop comes to its end.
parse_from-ends :
    (f argc : ℕ) (input : Bytes)
    → length input < f
    → (result : Option (List Bytes)) × (parse_from f argc input ≡ some result)
unfolding parse_from
parse_from-ends zero argc input hf = absurd (omega arith)
parse_from-ends (suc f) argc input hf = elim (skip_space-cases input) [
  | inl h ↦ (some [], rw (h, parse_from))
  | inr (c, p, h, solid, less) ↦ elim (Bool-cases (ltb argc max_args)) [
    | inr full ↦ (none, rw (h, full, parse_from))
    | inl room ↦ elim (Option-cases (scan_argument c p)) [
      | inl bad ↦ (none, rw (h, room, bad, parse_from))
      | inr ((a, r), good) ↦
          let shorter : length r < suc (length p) = rw good at (scan_argument-Shorter c p solid) in
          let (result, e) = parse_from-ends f (argc + 1) r (omega arith) in
          (prepend a result, rw (h, room, good, parse_from) (ap (prepend_to a) e))
    ]
  ]
]

-- The loop of parse_command comes to its end on every line: any fuel above the length of the line,
-- that of `parse_command` among them, gives an end of the loop, and not the state of a loop that is
-- still running, with the result of `parse_command`.
pub parse_command-fuel :
    (fuel : ℕ) (input : Bytes)
    → length input < fuel
    → parse_from fuel 0 input ≡ some (parse_command input)
unfolding parse_command
parse_command-fuel fuel input enough =
    let (result, e) = parse_from-ends (suc (length input)) 0 input (omega arith) in
    parse_from-fuel fuel (suc (length input)) 0 input enough (omega arith)
    ∙ e
    ∙ ap (λ o. some (ended o)) (sym e)

-- An argument that can stand in quotes.
abbrev pub IsQuotable : Bytes → Type 0
IsQuotable a = All (λ c. c ≢ b'"') a

-- A command line of quoted arguments.
abbrev pub quoted_line : List Bytes → Bytes
quoted_line [] = []
quoted_line (a ∷ argv) = codes " \"" ++ (a ++ (b'"' ∷ quoted_line argv))

scan_quoted-quoted :
    (a rest : Bytes) → IsQuotable a → scan_quoted (a ++ (b'"' ∷ rest)) ≡ some (a, rest)
unfolding scan_quoted
scan_quoted-quoted [] rest h = refl
scan_quoted-quoted (c ∷ a) rest h =
    let other : (c == b'"') ≡ false = ground (arith, h.0) in
    rw (scan_quoted-quoted a rest h.1, other)

parse_from-quoted :
    (f argc : ℕ) (argv : List Bytes)
    → length argv < f
    → argc + length argv ≤ max_args
    → All IsQuotable argv
    → parse_from f argc (quoted_line argv) ≡ some (some argv)
unfolding parse_from scan_argument skip_space is_space
parse_from-quoted zero argc argv enough few h = absurd (omega arith)
parse_from-quoted (suc f) argc [] enough few h = refl
parse_from-quoted (suc f) argc (a ∷ argv) enough few h =
    let room : ltb argc max_args ≡ true = ground arith in
    rw (
      parse_from,
      room,
      scan_quoted-quoted a (quoted_line argv) h.0,
      parse_from-quoted f (argc + 1) argv (omega arith) (omega arith) h.1,
    )

length-quoted_line : (argv : List Bytes) → length argv ≤ length (quoted_line argv)
length-quoted_line [] = omega arith
length-quoted_line (a ∷ argv) =
    omega (arith, length-quoted_line argv, length-append {0} a (b'"' ∷ quoted_line argv))

-- At most five arguments without a quotation mark, with white space or empty as they may be, each in
-- quotes behind a blank, are parsed as just these arguments.
pub parse_command-quoted_line :
    (argv : List Bytes)
    → length argv ≤ max_args
    → All IsQuotable argv
    → parse_command (quoted_line argv) ≡ some argv
unfolding parse_command
parse_command-quoted_line argv few h = ap ended (
    parse_from-quoted (suc (length (quoted_line argv))) 0 argv
      (omega (arith, length-quoted_line argv)) (omega arith) h)
