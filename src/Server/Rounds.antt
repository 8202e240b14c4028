-- ===== src/Server/Rounds.antt =====
-- The rounds of src/server.c: what holds of the table of clients between them.
use in_mem_db.Base.{
  ℕ, zero, suc, ◌+◌, ◌<◌, Bool, true, Option, none, some, List, [], ◌∷◌, ◌++◌, Bytes, ◌≡◌, inl, inr,
  ◌∙◌, ap, sym, refl, arith, length, Bool-cases, get_or, set, subst, ◌%◌, Option-cases, ◌^◌, leb,
  take, append-nil,
}
use in_mem_db.Server.{
  end_of_file, interrupted, failed, bytes, dismiss, admit, Client, Output, Serving, Ready, Received,
  buffer_size, empty_slot, fd_at, closing, accepting, serve_slot, serve_slots, serve_round,
  receive_bytes, process_lines, submit_command, strchr, command_length, consume, bytes,
}
use in_mem_db.Server.Receive.{IsIdle, receive_bytes-IsIdle}
use in_mem_db.Server.Slots.{IsKept, IsAbsent, taken, taken_in, amount}
use in_mem_db.Server.Table.{
  IsServing, IsServing-replace, close_client-IsServing, accept_client-IsServing, IsUnique-at,
  All-at,
}

set-splice :
    (clients : List Client) (i : ℕ) (d c' : Client)
    → i < length clients
    → (before : List Client) × (after : List Client) × (clients
        ≡ before ++ get_or clients i d ∷ after)
      × (set clients i c' ≡ before ++ c' ∷ after)
set-splice [] i d c' h = absurd (omega arith)
set-splice (c ∷ clients) zero d c' h = ([], clients, refl, refl)
set-splice (c ∷ clients) (suc i) d c' h =
    let (before, after, e, e') = set-splice clients i d c' (omega arith) in
    (c ∷ before, after, ap (λ r. c ∷ r) e, ap (λ r. c ∷ r) e')

fd_at-length : (clients : List Client) (i fd : ℕ) → fd_at clients i ≡ some fd → i < length clients
fd_at-length [] i fd h = absurd (ground (arith, h))
fd_at-length (c ∷ clients) zero fd h = omega arith
fd_at-length (c ∷ clients) (suc i) fd h = omega (arith, fd_at-length clients i fd h)

-- What the table of a server keeps.
abbrev pub Keeps : {P : Type 0} → List ℕ → Serving P → Type 0
Keeps n s = IsServing n s.clients s.out

-- What the rounds rely on: `recv` fills at most 1023 bytes.
abbrev pub IsShort : Ready → Type 0
IsShort ready = (i : ℕ) (temp : Bytes) → ready.recv i ≡ bytes temp → length temp < buffer_size

module _ {P : Type 0} (submit : ℕ → Bytes → P → Bool × P) where
  submit_command-closed :
      (fd : ℕ) (command : Bytes) (pool : P) (out : Output)
      → (submit_command submit fd command pool out).1.closed ≡ out.closed
  unfolding submit_command
  submit_command-closed fd command pool out = elim (Bool-cases (submit fd command pool).0) [
    | inl queued ↦ rw queued
    | inr refused ↦ rw refused
  ]

  process_lines-closed :
      (fuel fd : ℕ) (c : Client) (pool : P) (out : Output)
      → (process_lines submit fuel fd c pool out).2.closed ≡ out.closed
  unfolding process_lines
  process_lines-closed zero fd c pool out = refl
  process_lines-closed (suc fuel) fd c pool out = elim (Option-cases (strchr c.buffer 10)) [
    | inl none_there ↦ rw (none_there, process_lines)
    | inr (newline, at) ↦
        let command = take (command_length c.buffer newline) c.buffer in
        let next = submit_command submit fd command pool out in
        rw (at, process_lines)
          (process_lines-closed fuel fd (consume newline c) next.0 next.1
            ∙ submit_command-closed fd command pool out)
  ]

  receive_bytes-closed :
      (fd : ℕ) (c : Client) (temp : Bytes) (pool : P) (out : Output)
      → (receive_bytes submit fd c temp pool out).2.closed ≡ out.closed
  unfolding receive_bytes
  receive_bytes-closed fd c temp pool out =
      let total = (c.length + length temp) % 2 ^ 64 in
      elim (Bool-cases (leb buffer_size total)) [
        | inl long ↦ rw long
        | inr fits ↦ rw fits (process_lines-closed (suc total) fd _ pool out)
      ]

  closing-Keeps : (n : List ℕ) (fd : ℕ) (s : Serving P) → Keeps n s → Keeps n (closing fd s)
  unfolding closing
  closing-Keeps n fd s h = close_client-IsServing n fd s.clients s.out h

  receive-Keeps :
      (n : List ℕ) (i fd : ℕ) (temp : Bytes) (s : Serving P)
      → Keeps n s
      → fd_at s.clients i ≡ some fd
      → length temp < buffer_size
      → IsServing n
          (set s.clients i
            (receive_bytes submit fd (get_or s.clients i empty_slot) temp s.pool s.out).0)
          (receive_bytes submit fd (get_or s.clients i empty_slot) temp s.pool s.out).2
  receive-Keeps n i fd temp s h there short =
      let c : Client = get_or s.clients i empty_slot in
      let next = receive_bytes submit fd c temp s.pool s.out in
      let (before, after, shape, shape') =
        set-splice s.clients i empty_slot next.0 (fd_at-length s.clients i fd there) in
      let h' = subst (λ cs. IsServing n cs s.out) shape h in
      let idle : IsKept c → IsIdle next.0 c.fd =
        λ kept. receive_bytes-IsIdle submit fd c kept.text temp s.pool s.out kept.holds short in
      let same : next.0.fd ≡ c.fd = (idle (All-at IsKept before c after h'.kept)).same in
      subst (λ cs. IsServing n cs next.2) (sym shape')
        (IsServing-replace n n before c next.0 after s.out next.2 h'
          (λ kept. subst (IsIdle next.0) (sym same) (idle kept))
          (λ fd' e. IsUnique-at before c after h'.unique fd' (sym same ∙ e))
          (λ x. omega (
            arith,
            ap (taken x) same,
            ap (amount x) (receive_bytes-closed fd c temp s.pool s.out),
          )))

  serve_slot-Keeps :
      (ready : Ready) (n : List ℕ) (i : ℕ) (s : Serving P)
      → IsShort ready
      → Keeps n s
      → Keeps n (serve_slot submit ready i s)
  unfolding serve_slot
  serve_slot-Keeps ready n i s short h = elim (Option-cases (fd_at s.clients i)) [
    | inl free ↦ rw (free, serve_slot) h
    | inr (fd, there) ↦ elim (Bool-cases (ready.is_set fd)) [
      | inr unset ↦ rw (there, unset, serve_slot) h
      | inl ready_now ↦ answered (ready.recv i) refl fd there ready_now
    ]
  ]
    where
      answered :
          (r : Received)
          → ready.recv i ≡ r
          → (fd : ℕ) → fd_at s.clients i ≡ some fd
          → ready.is_set fd ≡ true
          → Keeps n (serve_slot submit ready i s)
      answered end_of_file e fd there on = rw (there, on, e, serve_slot) (closing-Keeps n fd s h)
      answered interrupted e fd there on = rw (there, on, e, serve_slot) h
      answered failed e fd there on = rw (there, on, e, serve_slot) (closing-Keeps n fd s h)
      answered (bytes temp) e fd there on =
          rw (there, on, e, serve_slot) (receive-Keeps n i fd temp s h there (short i temp e))

  serve_slots-Keeps :
      (ready : Ready) (n : List ℕ) (k i : ℕ) (s : Serving P)
      → IsShort ready
      → Keeps n s
      → Keeps n (serve_slots submit ready k i s)
  unfolding serve_slots
  serve_slots-Keeps ready n zero i s short h = h
  serve_slots-Keeps ready n (suc k) i s short h =
      serve_slots-Keeps ready n k (suc i) (serve_slot submit ready i s) short
        (serve_slot-Keeps ready n i s short h)

  dismiss-Keeps :
      (n : List ℕ) (notified : Option ℕ) (s : Serving P) → Keeps n s → Keeps n (dismiss notified s)
  dismiss-Keeps n none s h = h
  dismiss-Keeps n (some fd) s h = closing-Keeps n fd s h

  admit-Keeps :
      (n : List ℕ) (connection : Option ℕ) (s : Serving P)
      → ((fd : ℕ) → connection ≡ some fd → IsAbsent fd s.clients)
      → Keeps n s
      → Keeps (n ++ taken_in connection) (admit connection s)
  unfolding accepting
  admit-Keeps n none s new h = subst (λ k. Keeps k s) (sym (append-nil n)) h
  admit-Keeps n (some fd) s new h = accept_client-IsServing n fd s.clients s.out h (new fd refl)

  -- A round keeps the table of clients in order, for any bytes that arrive: 16 slots, each with a
  -- text, a NUL behind it and 1024 bytes in all, no line left in it that strchr reaches, no
  -- descriptor in two slots; and each descriptor is in as many slots and closings together as it was
  -- among those taken in so far, `n`, and the one of this round, so that none is lost and none closed
  -- twice. It relies on `recv` filling at most 1023 bytes, and on `accept` returning a descriptor that
  -- no slot has.
  pub serve_round-Keeps :
      (ready : Ready) (n : List ℕ) (s : Serving P)
      → Keeps n s
      → IsShort ready
      → ((fd : ℕ) → ready.connection ≡ some fd → IsAbsent fd (dismiss ready.notified s).clients)
      → Keeps (n ++ taken_in ready.connection) (serve_round submit ready s)
  unfolding serve_round
  serve_round-Keeps ready n s h short new =
      serve_slots-Keeps ready (n ++ taken_in ready.connection) 16 0
        (admit ready.connection (dismiss ready.notified s)) short
        (admit-Keeps n ready.connection (dismiss ready.notified s) new
          (dismiss-Keeps n ready.notified s h))
