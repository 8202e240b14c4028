-- ===== src/Server/Receive.antt =====
-- What one `recv` of src/server.c does to a slot, for any bytes.
use in_mem_db.Base.{
  ℕ, zero, suc, ◌+◌, ◌<◌, Bool, Option, none, some, [], ◌∷◌, ◌++◌, Bytes, ◌≡◌, ◌⊎◌, inl, inr, ◌∙◌,
  ap, refl, arith, length, length-append, take, ◌==◌, Bool-cases, subst, leb, ◌^◌, ◌%◌,
}
use in_mem_db.Server.{
  Client, Output, buffer_size, receive_bytes, process_lines, strchr, submit_command, command_length,
  consume,
}
use in_mem_db.Server.Buffer.{
  Holds, reset-Holds, reset-strchr, reset-fd, memcpy-Holds, consume-Holds, consume-fd,
}

-- The first newline of what a slot holds, or none that `strchr` reaches.
strchr-Holds :
    (p junk : Bytes)
    → (strchr (p ++ 0 ∷ junk) 10 ≡ none)
      ⊎ ((line : Bytes) × (rest : Bytes) × (p ≡ line ++ 10 ∷ rest)
          × (strchr (p ++ 0 ∷ junk) 10 ≡ some (length line)))
unfolding strchr
strchr-Holds [] junk = inl refl
strchr-Holds (c ∷ p) junk = elim (Bool-cases (c == 10)) [
  | inl newline ↦ inr ([], p, ap (λ d. d ∷ p) (ground arith), rw newline)
  | inr other ↦ elim (Bool-cases (c == 0)) [
    | inl stop ↦ inl (rw (other, stop))
    | inr solid ↦ elim (strchr-Holds p junk) [
      | inl none_there ↦ inl (rw (other, solid, none_there))
      | inr (line, rest, e, at) ↦ inr (c ∷ line, rest, ap (λ s. c ∷ s) e, rw (other, solid, at))
    ]
  ]
]

-- A slot between two rounds: its buffer is in order, no line is left in it, and it is still `fd`.
pub record IsIdle (c : Client) (fd : Option ℕ) : Type 0 where
  pub text : Bytes
  pub holds : Holds c text
  pub no_line : strchr c.buffer 10 ≡ none
  pub same : c.fd ≡ fd

module _ {P : Type 0} (submit : ℕ → Bytes → P → Bool × P) where
  process_lines-IsIdle :
      (fuel fd : ℕ) (c : Client) (p : Bytes) (pool : P) (out : Output)
      → Holds c p
      → length p < fuel
      → IsIdle (process_lines submit fuel fd c pool out).0 c.fd
  unfolding process_lines
  process_lines-IsIdle zero fd c p pool out h enough = absurd (omega arith)
  process_lines-IsIdle (suc fuel) fd c p pool out h enough = elim (strchr-Holds p h.junk) [
    | inl none_there ↦
        let none_here : strchr c.buffer 10 ≡ none = ap (λ b. strchr b 10) h.shape ∙ none_there in
        rw (none_here, process_lines)
          (record { text = p; holds = h; no_line = none_here; same = refl })
    | inr (line, rest, e, at) ↦
        let here : strchr c.buffer 10 ≡ some (length line) = ap (λ b. strchr b 10) h.shape ∙ at in
        let h' : Holds c (line ++ 10 ∷ rest) = subst (Holds c) e h in
        let next =
          submit_command submit fd (take (command_length c.buffer (length line)) c.buffer) pool
            out in
        let idle =
          process_lines-IsIdle fuel fd (consume (length line) c) rest next.0 next.1
            (consume-Holds c line rest h')
            (omega (arith, ap length e, length-append line (10 ∷ rest))) in
        rw (here, process_lines)
          (record {
            text = idle.text;
            holds = idle.holds;
            no_line = idle.no_line;
            same = idle.same ∙ consume-fd (length line) c;
          })
  ]

  pub receive_bytes-IsIdle :
      (fd : ℕ) (c : Client) (p temp : Bytes) (pool : P) (out : Output)
      → Holds c p
      → length temp < buffer_size
      → IsIdle (receive_bytes submit fd c temp pool out).0 c.fd
  unfolding receive_bytes
  receive_bytes-IsIdle fd c p temp pool out h short =
      let total : (c.length + length temp) % 2 ^ 64 ≡ length p + length temp =
        omega (arith, h.filled, h.size) in
      elim (Bool-cases (leb buffer_size (length p + length temp))) [
        | inl long ↦
            rw (total, long)
              (record {
                text = [];
                holds = reset-Holds c.fd c p h;
                no_line = reset-strchr c.fd c p h;
                same = reset-fd c.fd c;
              })
        | inr fits ↦
            rw (total, fits)
              (process_lines-IsIdle (suc (length p + length temp)) fd _ (p ++ temp) pool out
                (memcpy-Holds c p temp h (ground arith)) (omega (arith, length-append p temp)))
      ]
