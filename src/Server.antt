-- ===== src/Server.antt =====
-- include/server.h and src/server.c: the clients, their buffers, and one round of the select loop.
--
-- A slot of the three arrays is a record. A descriptor that was accepted is a natural number, `none`
-- is -1. What the calls of select, accept, read and recv answer is an input of the round.
pub mod Buffer
pub mod Lines
pub mod Receive
pub mod Slots
pub mod Sends
pub mod Start
pub mod Table
pub mod Rounds
pub mod Pool
pub mod Chunks
use in_mem_db.Base.{
  ℕ, zero, suc, ◌+◌, ◌-◌, ◌%◌, ◌^◌, Bool, true, false, not, ◌&&◌, Option, none, some, List, [], ◌∷◌,
  ◌++◌, Bytes, codes, ltb, leb, ◌==◌, if◌then◌else◌, length, take, drop, get_or, set, replicate,
}

abbrev pub max_clients : ℕ
max_clients = 16

abbrev pub buffer_size : ℕ
buffer_size = 1024

pub record Client : Type 0 where
  pub fd : Option ℕ
  pub buffer : Bytes
  pub length : ℕ

-- The first `c` in front of the terminating NUL.
unfoldable pub strchr : Bytes → ℕ → Option ℕ
strchr [] c = none
strchr (d ∷ s) c =
    let rest = strchr s c in
    if d == c
    then some 0
    else if d == 0
    then none
    else elim rest [ none ↦ none | some n ↦ some (suc n) ]

-- `memcpy(buffer + offset, bytes, ...)`
unfoldable pub memcpy : Bytes → ℕ → Bytes → Bytes
memcpy buffer offset bytes = take offset buffer ++ (bytes ++ drop (offset + length bytes) buffer)

-- What is handed to `send_all`, with its descriptor, and the descriptors that are closed.
pub record Output : Type 0 where
  pub sends : List (ℕ × Bytes)
  pub closed : List ℕ

abbrev pub say : ℕ → Bytes → Output → Output
say fd text out = record out { sends = out.sends ++ (fd, text) ∷ [] }

abbrev pub hang_up : ℕ → Output → Output
hang_up fd out = record out { closed = out.closed ++ fd ∷ [] }

-- The answers of `send`: interrupted, another error, or the number of bytes that were taken.
pub data Sent : Type 0 where
  interrupted : Sent
  failed : Sent
  sent : ℕ → Sent

-- The loop, on the answers that it gets: what is returned, and the bytes that were taken. `none`: the
-- answers are used up before the loop ends.
unfoldable pub send_all : List Sent → Bytes → Option (Bool × Bytes)
send_all answers [] = some (true, [])
send_all [] (c ∷ more) = none
send_all (interrupted ∷ answers) (c ∷ more) = send_all answers (c ∷ more)
send_all (failed ∷ answers) (c ∷ more) = some (false, [])
send_all (sent n ∷ answers) (c ∷ more) = elim (send_all answers (drop n (c ∷ more))) [
  | none ↦ none
  | some (result, taken) ↦ some (result, take n (c ∷ more) ++ taken)
]

-- `client_fds[i] = -1; client_buffers[i][0] = '\0'; client_buffer_lengths[i] = 0;`
unfoldable pub reset : Option ℕ → Client → Client
reset fd c = record { fd = fd; buffer = set c.buffer 0 0; length = 0 }

abbrev pub is_fd : Option ℕ → ℕ → Bool
is_fd none fd = false
is_fd (some a) fd = a == fd

unfoldable pub close_client : ℕ → List Client → Output → List Client × Output
unfolding reset
close_client fd [] out = ([], out)
close_client fd (c ∷ clients) out =
    let rest = close_client fd clients out in
    if is_fd c.fd fd then (reset none c ∷ clients, hang_up fd out) else (c ∷ rest.0, rest.1)

-- The first free slot gets the descriptor; `none` if there is none.
unfoldable pub add_client : ℕ → List Client → Option (List Client)
unfolding reset
add_client fd [] = none
add_client fd (c ∷ clients) = elim c.fd [
  | none ↦ some (reset (some fd) c ∷ clients)
  | some _ ↦ elim (add_client fd clients) [ none ↦ none | some clients' ↦ some (c ∷ clients') ]
]

-- A new connection, once `accept` has returned a descriptor.
unfoldable pub accept_client : ℕ → List Client → Output → List Client × Output
unfolding add_client
accept_client fd clients out = elim (add_client fd clients) [
  | some clients' ↦ (clients', out)
  | none ↦ (clients, hang_up fd (say fd (codes "ERR server busy\n") out))
]

-- The answers of `recv`: end of file, interrupted, another error, or the bytes in `temp`.
pub data Received : Type 0 where
  end_of_file : Received
  interrupted : Received
  failed : Received
  bytes : Bytes → Received

-- The length of a command whose line ends at `newline`, without the carriage return before it.
unfoldable pub command_length : Bytes → ℕ → ℕ
command_length buffer newline =
    if ltb 0 newline && get_or buffer (newline - 1) 0 == 13 then newline - 1 else newline

-- A line up to `newline` is taken out of the buffer.
unfoldable pub consume : ℕ → Client → Client
unfolding memcpy
consume newline c =
    let remaining = (c.length + 2 ^ 64 - (newline + 1)) % 2 ^ 64 in
    record c {
      buffer = set (memcpy c.buffer 0 (take remaining (drop (newline + 1) c.buffer))) remaining 0;
      length = remaining;
    }

-- What a round finds: the descriptor read from the pipe, if the pipe was ready and gave a whole one;
-- the descriptor that `accept` returned, if the listening socket was ready; the set that `select` left;
-- and what `recv` answers for each slot.
pub record Ready : Type 0 where
  pub notified : Option ℕ
  pub connection : Option ℕ
  pub is_set : ℕ → Bool
  pub recv : ℕ → Received

pub record Serving (P : Type 0) : Type 0 where
  pub clients : List Client
  pub pool : P
  pub out : Output

abbrev pub empty_slot : Client
empty_slot = record { fd = none; buffer = replicate buffer_size 0; length = 0 }

abbrev pub fd_at : List Client → ℕ → Option ℕ
fd_at clients i = (get_or clients i empty_slot).fd

unfoldable pub closing : {P : Type 0} → ℕ → Serving P → Serving P
closing fd s =
    let (clients, out) = close_client fd s.clients s.out in
    record s { clients = clients; out = out }

unfoldable pub accepting : {P : Type 0} → ℕ → Serving P → Serving P
accepting fd s =
    let (clients, out) = accept_client fd s.clients s.out in
    record s { clients = clients; out = out }

-- The pipe of the pool: the client that it names is disconnected.
abbrev pub dismiss : {P : Type 0} → Option ℕ → Serving P → Serving P
dismiss none s = s
dismiss (some fd) s = closing fd s

-- The listening socket.
abbrev pub admit : {P : Type 0} → Option ℕ → Serving P → Serving P
admit none s = s
admit (some fd) s = accepting fd s

-- `submit` is `worker_pool_submit` on a pool of the type `P`.
module _ {P : Type 0} (submit : ℕ → Bytes → P → Bool × P) where
  -- One command is handed to the pool; a client whose command is refused is told.
  unfoldable pub submit_command : ℕ → Bytes → P → Output → P × Output
  submit_command fd command pool out =
      let (queued, pool') = submit fd command pool in
      (pool', if queued then out else say fd (codes "ERR failed to queue command\n") out)

  -- The loop over the lines, with fuel above the bytes in the buffer.
  unfoldable pub process_lines : ℕ → ℕ → Client → P → Output → Client × P × Output
  unfolding command_length
  process_lines zero fd c pool out = (c, pool, out)
  process_lines (suc fuel) fd c pool out = elim (strchr c.buffer 10) [
    | none ↦ (c, pool, out)
    | some newline ↦
        let next = submit_command fd (take (command_length c.buffer newline) c.buffer) pool out in
        process_lines fuel fd (consume newline c) next.0 next.1
  ]

  -- The bytes of one `recv`.
  unfoldable pub receive_bytes : ℕ → Client → Bytes → P → Output → Client × P × Output
  receive_bytes fd c temp pool out =
      let total = (c.length + length temp) % 2 ^ 64 in
      if leb buffer_size total
      then (reset c.fd c, pool, say fd (codes "ERR command too long\n") out)
      else process_lines (suc total) fd
          (record c { buffer = set (memcpy c.buffer c.length temp) total 0; length = total }) pool
          out

  -- One slot of the loop over the clients.
  unfoldable pub serve_slot : Ready → ℕ → Serving P → Serving P
  unfolding receive_bytes close_client
  serve_slot ready i s = elim (fd_at s.clients i) [
    | none ↦ s
    | some fd ↦ if not (ready.is_set fd) then s else elim (ready.recv i) [
      | interrupted ↦ s
      | end_of_file ↦ closing fd s
      | failed ↦ closing fd s
      | bytes temp ↦
          let (c, pool, out) = receive_bytes fd (get_or s.clients i empty_slot) temp s.pool s.out in
          record { clients = set s.clients i c; pool = pool; out = out }
    ]
  ]

  -- The slots from `i` on, `n` of them.
  unfoldable pub serve_slots : Ready → ℕ → ℕ → Serving P → Serving P
  serve_slots ready zero i s = s
  serve_slots ready (suc n) i s = serve_slots ready n (suc i) (serve_slot ready i s)

  -- What follows `select`: the pipe, the listening socket, the clients.
  unfoldable pub serve_round : Ready → Serving P → Serving P
  serve_round ready s =
      serve_slots ready max_clients 0 (admit ready.connection (dismiss ready.notified s))
