-- ===== src/Server/Chunks.antt =====
-- The bytes of a client of src/server.c that arrive in any pieces.
use in_mem_db.Base.{
  ℕ, suc, ◌+◌, ◌≤◌, ◌<◌, Bool, false, List, [], ◌∷◌, ◌++◌, Bytes, ◌≡◌, ◌≢◌, ◌⊎◌, inl, inr, ◌∙◌, ap,
  sym, refl, arith, length, length-append, append_assoc, append-nil, ◌==◌, leb, All, Bool-cases,
  map, ◌^◌, ◌%◌, codes, set, subst,
}
use in_mem_db.Server.{
  Client, Output, buffer_size, submit_command, receive_bytes, reset, say, memcpy, process_lines,
}
use in_mem_db.Server.Buffer.{Holds, memcpy-Holds, reset-Holds}
use in_mem_db.Server.Lines.{split, extend, strip, IsPlain, submit_all, process_lines-split}

-- A byte in front of two texts, the first of which is already split.
extend-split :
    (c : ℕ) (lines : List Bytes) (last more : Bytes)
    → (c == 10) ≡ false
    → extend c (lines ++ (split (last ++ more)).0) (split (last ++ more)).1 ≡ (
      (extend c lines last).0 ++ (split ((extend c lines last).1 ++ more)).0,
      (split ((extend c lines last).1 ++ more)).1,
    )
extend-split c [] last more other = rw other
extend-split c (line ∷ lines) last more other = refl

-- A text is split piece by piece: what stands behind the last newline of one goes in front of the next.
pub split-append :
    (s more : Bytes)
    → split (s ++ more)
      ≡ ((split s).0 ++ (split ((split s).1 ++ more)).0, (split ((split s).1 ++ more)).1)
split-append [] more = refl
split-append (c ∷ s) more = elim (Bool-cases (c == 10)) [
  | inl newline ↦
      rw newline (ap (λ (q : List Bytes × Bytes). ([] ∷ q.0, q.1)) (split-append s more))
  | inr other ↦ rw other (
      ap (λ (q : List Bytes × Bytes). extend c q.0 q.1) (split-append s more)
      ∙ extend-split c (split s).0 (split s).1 more other)
]

extend-IsPlain :
    (c : ℕ) (lines : List Bytes) (last : Bytes)
    → c ≢ 0
    → IsPlain last
    → IsPlain (extend c lines last).1
extend-IsPlain c [] last solid plain = (solid, plain)
extend-IsPlain c (line ∷ lines) last solid plain = plain

pub split-IsPlain : (s : Bytes) → IsPlain s → IsPlain (split s).1
split-IsPlain [] plain = plain
split-IsPlain (c ∷ s) plain = elim (Bool-cases (c == 10)) [
  | inl newline ↦ rw newline (split-IsPlain s plain.1)
  | inr other ↦
      rw other (extend-IsPlain c (split s).0 (split s).1 plain.0 (split-IsPlain s plain.1))
]

extend-rest :
    (c : ℕ) (lines : List Bytes) (last : Bytes)
    → (c == 10) ≡ false
    → split last ≡ ([], last)
    → split (extend c lines last).1 ≡ ([], (extend c lines last).1)
extend-rest c [] last other alone = rw (other, alone)
extend-rest c (line ∷ lines) last other alone = alone

-- What is left behind the last newline has no line.
pub split-rest : (s : Bytes) → split (split s).1 ≡ ([], (split s).1)
split-rest [] = refl
split-rest (c ∷ s) = elim (Bool-cases (c == 10)) [
  | inl newline ↦ rw newline (split-rest s)
  | inr other ↦ rw other (extend-rest c (split s).0 (split s).1 other (split-rest s))
]

IsPlain-append : (s t : Bytes) → IsPlain s → IsPlain t → IsPlain (s ++ t)
IsPlain-append [] t plain plain' = plain'
IsPlain-append (c ∷ s) t plain plain' = (plain.0, IsPlain-append s t plain.1 plain')

abbrev pub join : List Bytes → Bytes
join [] = []
join (s ∷ more) = s ++ join more

-- No piece makes the slot overflow.
abbrev pub Fits : Bytes → List Bytes → Type 0
Fits p [] = Unit
Fits p (temp ∷ more) = (length p + length temp < buffer_size) × Fits (split (p ++ temp)).1 more

module _ {P : Type 0} (submit : ℕ → Bytes → P → Bool × P) where
  -- What the commands of a text are to the pool.
  abbrev pub submit_text : ℕ → Bytes → P → Output → P × Output
  submit_text fd s pool out = submit_all submit fd (map strip (split s).0) pool out

  submit_all-append :
      (fd : ℕ) (lines more : List Bytes) (pool : P) (out : Output)
      → submit_all submit fd (map strip (lines ++ more)) pool out
        ≡ submit_all submit fd
            (map strip more)
            (submit_all submit fd (map strip lines) pool out).0
            (submit_all submit fd (map strip lines) pool out).1
  submit_all-append fd [] more pool out = refl
  submit_all-append fd (line ∷ lines) more pool out =
      let next = submit_command submit fd (strip line) pool out in
      submit_all-append fd lines more next.0 next.1

  -- One `recv` of less than 1024 bytes, for a slot that holds the text `p`, neither with a NUL: if
  -- both together have 1024 bytes or more, even if they hold short complete lines, the client is told
  -- that its command is too long, the slot is emptied and the pool is left alone; otherwise the lines of both together are submitted to the
  -- pool, in order and stripped, and the slot of the same client holds the rest.
  pub receive_bytes-split :
      (fd : ℕ) (c : Client) (p temp : Bytes) (pool : P) (out : Output)
      → Holds c p
      → IsPlain p
      → IsPlain temp
      → length temp < buffer_size
      → ((buffer_size ≤ length p + length temp)
          × (receive_bytes submit fd c temp pool out
              ≡ (reset c.fd c, pool, say fd (codes "ERR command too long\n") out))
          × Holds (reset c.fd c) [])
        ⊎ ((length p + length temp < buffer_size)
            × (c' : Client) × (receive_bytes submit fd c temp pool out ≡ (
              c',
              (submit_text fd (p ++ temp) pool out).0,
              (submit_text fd (p ++ temp) pool out).1,
            ))
            × Holds c' (split (p ++ temp)).1
            × (c'.fd ≡ c.fd))
  unfolding receive_bytes
  receive_bytes-split fd c p temp pool out h plain plain' short =
      let total : (c.length + length temp) % 2 ^ 64 ≡ length p + length temp =
        omega (arith, h.filled, h.size) in
      elim (Bool-cases (leb buffer_size (length p + length temp))) [
        | inl long ↦ inl (ground arith, rw (total, long), reset-Holds c.fd c p h)
        | inr fits ↦
            let room : length p + length temp < buffer_size = ground arith in
            let filled : Client = record c {
              buffer = set (memcpy c.buffer c.length temp) (length p + length temp) 0;
              length = length p + length temp;
            } in
            let (c', ran, holds, same) =
              process_lines-split submit (suc (length p + length temp)) fd filled (p ++ temp) pool
                out (memcpy-Holds c p temp h room) (IsPlain-append p temp plain plain')
                (omega (arith, length-append p temp)) in
            let step : receive_bytes submit fd c temp pool out
                ≡ process_lines submit (suc (length p + length temp)) fd filled pool out =
              rw (total, fits) in
            inr (room, c', step ∙ ran, holds, same)
      ]

  -- The answers of `recv` for one client, one after the other.
  abbrev pub receive_all : ℕ → Client → List Bytes → P → Output → Client × P × Output
  receive_all fd c [] pool out = (c, pool, out)
  receive_all fd c (temp ∷ more) pool out =
      let next = receive_bytes submit fd c temp pool out in receive_all fd next.0 more next.1 next.2

  -- However the text of a client is cut into pieces, as long as no piece makes the slot overflow:
  -- for a slot that holds the text `p` without a newline, no NUL in it or in the pieces, exactly
  -- the lines of the whole text are submitted to the pool, in order, each without its newline and a
  -- carriage return before it, and the slot holds what stands behind the last newline.
  pub receive_all-split :
      (fd : ℕ) (c : Client) (p : Bytes) (pieces : List Bytes) (pool : P) (out : Output)
      → Holds c p
      → split p ≡ ([], p)
      → IsPlain p
      → All IsPlain pieces
      → Fits p pieces
      → (c' : Client) × (receive_all fd c pieces pool out ≡ (
        c',
        (submit_text fd (p ++ join pieces) pool out).0,
        (submit_text fd (p ++ join pieces) pool out).1,
      ))
        × Holds c' (split (p ++ join pieces)).1
  receive_all-split fd c p [] pool out h alone plain plains fits =
      let whole : split (p ++ []) ≡ ([], p) = ap split (append-nil p) ∙ alone in
      (
        c,
        ap
            (λ (q : List Bytes × Bytes). (
              c,
              (submit_all submit fd (map strip q.0) pool out).0,
              (submit_all submit fd (map strip q.0) pool out).1,
            ))
            (sym whole),
        subst (λ (q : List Bytes × Bytes). Holds c q.1) (sym whole) h,
      )
  receive_all-split fd c p (temp ∷ more) pool out h alone plain plains fits =
      elim (receive_bytes-split fd c p temp pool out h plain plains.0 (omega (arith, fits.0))) [
        | inl (long, _, _) ↦ absurd (omega (arith, long, fits.0))
        | inr (_, c', ran, holds, _) ↦
            let rest : Bytes = (split (p ++ temp)).1 in
            let (c'', ran', holds') =
              receive_all-split fd c' rest more (submit_text fd (p ++ temp) pool out).0
                (submit_text fd (p ++ temp) pool out).1 holds (split-rest (p ++ temp))
                (split-IsPlain (p ++ temp) (IsPlain-append p temp plain plains.0)) plains.1
                fits.1 in
            let whole =
              ap split (sym (append_assoc p temp (join more)))
              ∙ split-append (p ++ temp) (join more) in
            let commands =
              ap (λ (q : List Bytes × Bytes). submit_all submit fd (map strip q.0) pool out) whole
              ∙ submit_all-append fd (split (p ++ temp)).0 (split (rest ++ join more)).0 pool out in
            (
              c'',
              ap (λ (q : Client × P × Output). receive_all fd q.0 more q.1 q.2) ran
                  ∙ ran'
                  ∙ ap (λ (q : P × Output). (c'', q.0, q.1)) (sym commands),
              subst (λ (q : List Bytes × Bytes). Holds c'' q.1) (sym whole) holds',
            )
      ]
