-- ===== src/Server/Pool.antt =====
-- What the rounds of src/server.c keep of the pool.
use in_mem_db.Base.{
  ℕ, zero, suc, ◌+◌, Bool, true, Option, none, some, Bytes, ◌≡◌, inl, inr, refl, Bool-cases,
  Option-cases, length, leb, take, get_or, ◌^◌, ◌%◌,
}
use in_mem_db.Server.{
  end_of_file, interrupted, failed, bytes, Client, Output, Serving, Ready, Received, buffer_size,
  max_clients, strchr, command_length, consume, empty_slot, fd_at, closing, accepting, dismiss,
  admit, submit_command, process_lines, receive_bytes, serve_slot, serve_slots, serve_round,
}

module _ {P : Type 0} (submit : ℕ → Bytes → P → Bool × P) (I : P → Type 0)
    (submits : (fd : ℕ) (command : Bytes) (pool : P) → I pool → I (submit fd command pool).1) where
  submit_command-keeps :
      (fd : ℕ) (command : Bytes) (pool : P) (out : Output)
      → I pool
      → I (submit_command submit fd command pool out).0
  unfolding submit_command
  submit_command-keeps fd command pool out h = submits fd command pool h

  process_lines-keeps :
      (fuel fd : ℕ) (c : Client) (pool : P) (out : Output)
      → I pool
      → I (process_lines submit fuel fd c pool out).1
  unfolding process_lines
  process_lines-keeps zero fd c pool out h = h
  process_lines-keeps (suc fuel) fd c pool out h = elim (Option-cases (strchr c.buffer 10)) [
    | inl none_there ↦ rw (none_there, process_lines) h
    | inr (newline, at) ↦
        let command = take (command_length c.buffer newline) c.buffer in
        let next = submit_command submit fd command pool out in
        rw (at, process_lines)
          (process_lines-keeps fuel fd (consume newline c) next.0 next.1
            (submit_command-keeps fd command pool out h))
  ]

  receive_bytes-keeps :
      (fd : ℕ) (c : Client) (temp : Bytes) (pool : P) (out : Output)
      → I pool
      → I (receive_bytes submit fd c temp pool out).1
  unfolding receive_bytes
  receive_bytes-keeps fd c temp pool out h =
      let total = (c.length + length temp) % 2 ^ 64 in
      elim (Bool-cases (leb buffer_size total)) [
        | inl long ↦ rw long h
        | inr fits ↦ rw fits (process_lines-keeps (suc total) fd _ pool out h)
      ]

  closing-pool : (fd : ℕ) (s : Serving P) → (closing fd s).pool ≡ s.pool
  unfolding closing
  closing-pool fd s = refl

  serve_slot-keeps :
      (ready : Ready) (i : ℕ) (s : Serving P) → I s.pool → I (serve_slot submit ready i s).pool
  unfolding serve_slot closing
  serve_slot-keeps ready i s h = elim (Option-cases (fd_at s.clients i)) [
    | inl free ↦ rw (free, serve_slot) h
    | inr (fd, there) ↦ elim (Bool-cases (ready.is_set fd)) [
      | inr unset ↦ rw (there, unset, serve_slot) h
      | inl ready_now ↦ answered (ready.recv i) refl fd there ready_now
    ]
  ]
    where
      answered :
          (r : Received)
          → ready.recv i ≡ r
          → (fd : ℕ) → fd_at s.clients i ≡ some fd
          → ready.is_set fd ≡ true
          → I (serve_slot submit ready i s).pool
      answered end_of_file e fd there on = rw (there, on, e, serve_slot) h
      answered interrupted e fd there on = rw (there, on, e, serve_slot) h
      answered failed e fd there on = rw (there, on, e, serve_slot) h
      answered (bytes temp) e fd there on =
          rw (there, on, e, serve_slot)
            (receive_bytes-keeps fd (get_or s.clients i empty_slot) temp s.pool s.out h)

  serve_slots-keeps :
      (ready : Ready) (n i : ℕ) (s : Serving P) → I s.pool → I (serve_slots submit ready n i s).pool
  unfolding serve_slots
  serve_slots-keeps ready zero i s h = h
  serve_slots-keeps ready (suc n) i s h =
      serve_slots-keeps ready n (suc i) (serve_slot submit ready i s) (serve_slot-keeps ready i s h)

  dismiss-keeps : (fd : Option ℕ) (s : Serving P) → I s.pool → I (dismiss fd s).pool
  unfolding closing
  dismiss-keeps none s h = h
  dismiss-keeps (some fd) s h = h

  admit-keeps : (fd : Option ℕ) (s : Serving P) → I s.pool → I (admit fd s).pool
  unfolding accepting
  admit-keeps none s h = h
  admit-keeps (some fd) s h = h

  -- What each submission keeps of the pool, a round keeps.
  pub serve_round-keeps :
      (ready : Ready) (s : Serving P) → I s.pool → I (serve_round submit ready s).pool
  unfolding serve_round
  serve_round-keeps ready s h =
      serve_slots-keeps ready max_clients 0 (admit ready.connection (dismiss ready.notified s))
        (admit-keeps ready.connection (dismiss ready.notified s) (dismiss-keeps ready.notified s h))
