-- ===== src/Server/Lines.antt =====
-- The loop of src/server.c over the lines in a buffer, against the lines of a text.
use in_mem_db.Base.{
  ℕ, zero, suc, ◌-◌, ◌≤◌, ◌<◌, Bool, false, none, some, List, [], ◌∷◌, ◌++◌, Bytes, ◌≡◌, ◌≢◌, ◌⊎◌,
  inl, inr, ◌∙◌, ap, sym, refl, arith, length, length-append, take, get_or, append_assoc, ◌==◌, ltb,
  ◌&&◌, if◌then◌else◌, All, Bool-cases, map, take-append, subst,
}
use in_mem_db.Server.{
  Client, Output, strchr, consume, command_length, submit_command, process_lines,
}
use in_mem_db.Server.Buffer.{Holds, consume-Holds, consume-fd}

abbrev pub extend : ℕ → List Bytes → Bytes → List Bytes × Bytes
extend c [] rest = ([], c ∷ rest)
extend c (line ∷ lines) rest = ((c ∷ line) ∷ lines, rest)

-- The lines of a text, each without its newline, and what stands behind the last newline.
abbrev pub split : Bytes → List Bytes × Bytes
split [] = ([], [])
split (c ∷ s) =
    let more = split s in if c == 10 then ([] ∷ more.0, more.1) else extend c more.0 more.1

-- A line without a carriage return at its end.
abbrev pub strip : Bytes → Bytes
strip line =
    let n = length line in
    if ltb 0 n && get_or line (n - 1) 0 == 13 then take (n - 1) line else line

-- No NUL in a text.
abbrev pub IsPlain : Bytes → Type 0
IsPlain s = All (λ c. c ≢ 0) s

-- The first line of `p`, or none.
strchr-split :
    (p junk : Bytes)
    → IsPlain p
    → ((strchr (p ++ 0 ∷ junk) 10 ≡ none) × (split p ≡ ([], p)))
      ⊎ ((line : Bytes) × (rest : Bytes) × (p ≡ line ++ 10 ∷ rest)
          × (strchr (p ++ 0 ∷ junk) 10 ≡ some (length line))
          × (split p ≡ (line ∷ (split rest).0, (split rest).1))
          × IsPlain rest)
unfolding strchr
strchr-split [] junk plain = inl (refl, refl)
strchr-split (c ∷ p) junk plain = elim (Bool-cases (c == 10)) [
  | inl newline ↦
      let e : c ≡ 10 = ground arith in
      inr ([], p, ap (λ d. d ∷ p) e, rw newline, rw newline, plain.1)
  | inr other ↦
      let solid : (c == 0) ≡ false = ground (arith, plain.0) in
      elim (strchr-split p junk plain.1) [
        | inl (none_there, whole) ↦ inl (rw (other, solid, none_there), rw (other, whole))
        | inr (line, rest, e, at, first, plain') ↦
            inr
              (c ∷ line, rest, ap (λ s. c ∷ s) e, rw (other, solid, at), rw (other, first), plain')
      ]
]

get_or-append : (s t : Bytes) (n d : ℕ) → n < length s → get_or (s ++ t) n d ≡ get_or s n d
get_or-append [] t n d h = absurd (omega arith)
get_or-append (c ∷ s) t zero d h = refl
get_or-append (c ∷ s) t (suc n) d h = get_or-append s t n d (omega arith)

take-shorter : (s t : Bytes) (n : ℕ) → n ≤ length s → take n (s ++ t) ≡ take n s
take-shorter s t zero h = refl
take-shorter [] t (suc n) h = absurd (omega arith)
take-shorter (c ∷ s) t (suc n) h = ap (λ r. c ∷ r) (take-shorter s t n (omega arith))

-- The command that is cut out of the buffer is the line, stripped.
command-strip :
    (line rest : Bytes)
    → take (command_length (line ++ rest) (length line)) (line ++ rest) ≡ strip line
unfolding command_length
command-strip line rest = elim (Bool-cases (ltb 0 (length line))) [
  | inr empty ↦ rw empty (take-append line rest)
  | inl some_byte ↦
      let last : get_or (line ++ rest) (length line - 1) 0 ≡ get_or line (length line - 1) 0 =
        get_or-append line rest (length line - 1) 0 (ground arith) in
      elim (Bool-cases (get_or line (length line - 1) 0 == 13)) [
        | inl return_there ↦
            rw (some_byte, last, return_there)
              (take-shorter line rest (length line - 1) (omega arith))
        | inr plain ↦ rw (some_byte, last, plain) (take-append line rest)
      ]
]

module _ {P : Type 0} (submit : ℕ → Bytes → P → Bool × P) where
  -- Commands handed to the pool one after the other.
  abbrev pub submit_all : ℕ → List Bytes → P → Output → P × Output
  submit_all fd [] pool out = (pool, out)
  submit_all fd (command ∷ more) pool out =
      let next = submit_command submit fd command pool out in submit_all fd more next.0 next.1

  pub process_lines-split :
      (fuel fd : ℕ) (c : Client) (p : Bytes) (pool : P) (out : Output)
      → Holds c p
      → IsPlain p
      → length p < fuel
      → (c' : Client) × (process_lines submit fuel fd c pool out ≡ (
        c',
        (submit_all fd (map strip (split p).0) pool out).0,
        (submit_all fd (map strip (split p).0) pool out).1,
      ))
        × Holds c' (split p).1
        × (c'.fd ≡ c.fd)
  unfolding process_lines
  process_lines-split zero fd c p pool out h plain enough = absurd (omega arith)
  process_lines-split (suc fuel) fd c p pool out h plain enough =
      elim (strchr-split p h.junk plain) [
        | inl (none_there, whole) ↦
            let none_here : strchr c.buffer 10 ≡ none =
              ap (λ b. strchr b 10) h.shape ∙ none_there in
            (c, rw (none_here, whole, process_lines), rw whole h, refl)
        | inr (line, rest, e, at, first, plain') ↦
            let here : strchr c.buffer 10 ≡ some (length line) =
              ap (λ b. strchr b 10) h.shape ∙ at in
            let cut : take (command_length c.buffer (length line)) c.buffer ≡ strip line =
              ap (λ b. take (command_length b (length line)) b)
                (h.shape ∙ ap (λ q. q ++ 0 ∷ h.junk) e ∙ append_assoc line (10 ∷ rest) (0 ∷ h.junk))
              ∙ command-strip line ((10 ∷ rest) ++ 0 ∷ h.junk) in
            let h' : Holds c (line ++ 10 ∷ rest) = subst (Holds c) e h in
            let long = length-append line (10 ∷ rest) in
            let next = submit_command submit fd (strip line) pool out in
            let (c', ran, holds, fd_there) =
              process_lines-split fuel fd (consume (length line) c) rest next.0 next.1
                (consume-Holds c line rest h') plain' (omega (arith, ap length e, long)) in
            (
              c',
              rw (here, cut, process_lines) ran
                  ∙ ap
                      (λ (q : List Bytes × Bytes). (
                        c',
                        (submit_all fd (map strip q.0) pool out).0,
                        (submit_all fd (map strip q.0) pool out).1,
                      ))
                      (sym first),
              rw first holds,
              fd_there ∙ consume-fd (length line) c,
            )
      ]
