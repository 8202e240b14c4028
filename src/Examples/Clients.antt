-- ===== src/Examples/Clients.antt =====
-- The theorems on src/server.c at concrete inputs.
use in_mem_db.Server.Start.Linked.{IsLinked, linked_workers, linked_workers-PoolLaws}
use in_mem_db.Server.Start.{PoolLaws}
use in_mem_db.Base.{
  ℕ, zero, suc, Bool, Bytes, codes, List, [], ◌∷◌, ◌++◌, some, none, true, false, refl, ◌≡◌, ap,
  arith, ◌⊎◌, ◌≤◌, length, ◌<◌, replicate, map, subst, All, if◌then◌else◌, inl,
}
use in_mem_db.Command.Tests.{calm}
use in_mem_db.WorkerPool.Life.{Answers}
use in_mem_db.Server.{
  Client, Output, interrupted, sent, send_all, end_of_file, failed, bytes, Ready, Serving,
  empty_slot, receive_bytes, reset, say, serve_round, buffer_size,
}
use in_mem_db.Server.Buffer.{Holds, reset-fd}
use in_mem_db.Server.Lines.{split, IsPlain}
use in_mem_db.Server.Chunks.{submit_text, receive_bytes-split, receive_all, receive_all-split, join}
use in_mem_db.Server.Sends.{send_all-prefix, fails}
use in_mem_db.Server.Slots.{IsAbsent, amount}
use in_mem_db.Server.Rounds.{Keeps, IsShort, serve_round-Keeps}
use in_mem_db.Server.Start
use in_mem_db.Server.Start.{Preparation, Selected, round, quiet, Workers, server_start}
use in_mem_db.Server.Start.Release.{IsStack, fresh-IsServing, server_start-held}

-- A pool that keeps what is submitted, and refuses the client 0.
abbrev Log : Type 0
Log = List (ℕ × Bytes)

abbrev log_submit : ℕ → Bytes → Log → Bool × Log
log_submit zero command log = (false, log)
log_submit (suc fd) command log = (true, log ++ (suc fd, command) ∷ [])

-- A slot that has received "P".
abbrev begun : Client
begun = record { fd = some 7; buffer = 80 ∷ 0 ∷ replicate 1022 1; length = 1 }

begun-Holds : Holds begun (80 ∷ [])
unfolding replicate
begun-Holds = record { junk = replicate 1022 1; shape = refl; size = refl; filled = refl }

-- A carriage return, then a newline and an "x".
abbrev pieces : List Bytes
pieces = (13 ∷ []) ∷ (10 ∷ 120 ∷ []) ∷ []

pieces-IsPlain : All IsPlain pieces
pieces-IsPlain = ((omega arith, tt), ((omega arith, (omega arith, tt)), tt))

receive_all-split_example :
    (c' : Client) × (receive_all log_submit 7 begun pieces [] quiet ≡ (
      c',
      (submit_text log_submit 7 ((80 ∷ []) ++ join pieces) [] quiet).0,
      (submit_text log_submit 7 ((80 ∷ []) ++ join pieces) [] quiet).1,
    ))
    × Holds c' (split ((80 ∷ []) ++ join pieces)).1
receive_all-split_example =
    receive_all-split log_submit 7 begun (80 ∷ []) pieces [] quiet begun-Holds refl
      (omega arith, tt) pieces-IsPlain (omega arith, (omega arith, tt))

receive_bytes-split_example :
    ((buffer_size ≤ 2)
      × (receive_bytes log_submit 7 begun (10 ∷ []) [] quiet
          ≡ (reset (some 7) begun, [], say 7 (codes "ERR command too long\n") quiet))
      × Holds (reset (some 7) begun) [])
    ⊎ ((2 < buffer_size)
        × (c' : Client) × (receive_bytes log_submit 7 begun (10 ∷ []) [] quiet ≡ (
          c',
          (submit_text log_submit 7 (80 ∷ 10 ∷ []) [] quiet).0,
          (submit_text log_submit 7 (80 ∷ 10 ∷ []) [] quiet).1,
        ))
        × Holds c' (split (80 ∷ 10 ∷ [])).1
        × (c'.fd ≡ some 7))
receive_bytes-split_example =
    receive_bytes-split log_submit 7 begun (80 ∷ []) (10 ∷ []) [] quiet begun-Holds
      (omega arith, tt) (omega arith, tt) (omega arith)

send_all-prefix_example :
    (result : Bool) × (text : Bytes) × (rest : Bytes) × (send_all
        (interrupted ∷ sent 2 ∷ sent 1 ∷ [])
        (codes "OK\n")
      ≡ some (result, text))
    × (codes "OK\n" ≡ text ++ rest)
    × (result ≡ true → rest ≡ [])
    × (result ≡ false → fails (interrupted ∷ sent 2 ∷ sent 1 ∷ []) ≡ true)
send_all-prefix_example =
    send_all-prefix (interrupted ∷ sent 2 ∷ sent 1 ∷ []) (codes "OK\n") (inl (omega arith))

-- A round in which the client 5 connects and sends "hi" and a newline.
abbrev arrival : Ready
arrival = record {
  notified = none;
  connection = some 5;
  is_set = λ _. true;
  recv = λ _. bytes (codes "hi\n");
}

arrival-IsShort : IsShort arrival
arrival-IsShort i temp e =
    subst (λ t. length t < buffer_size)
      (ap (λ r. elim r [ end_of_file ↦ [] | interrupted ↦ [] | failed ↦ [] | bytes t ↦ t ]) e)
      (omega arith)

All-replicate : (P : Client → Type 0) (n : ℕ) (c : Client) → P c → All P (replicate n c)
unfolding replicate
All-replicate P zero c h = tt
All-replicate P (suc n) c h = (h, All-replicate P n c h)

fresh-IsAbsent : (fd : ℕ) (clients : List Client) → IsAbsent fd (map (reset none) clients)
fresh-IsAbsent fd [] = tt
fresh-IsAbsent fd (c ∷ clients) =
    (λ e. ground (arith, e, reset-fd none c), fresh-IsAbsent fd clients)

abbrev stack : List Client
stack = replicate 16 empty_slot

abbrev opening : Serving Log
opening = record { clients = map (reset none) stack; pool = []; out = quiet }

stack-IsStack : IsStack stack
unfolding replicate
stack-IsStack = (refl, All-replicate (λ c. length c.buffer ≡ buffer_size) 16 empty_slot refl)

opening-IsAbsent : (fd : ℕ) → some 5 ≡ some fd → IsAbsent fd opening.clients
opening-IsAbsent fd e = fresh-IsAbsent fd stack

serve_round-Keeps_example : Keeps (5 ∷ []) (serve_round log_submit arrival opening)
serve_round-Keeps_example =
    serve_round-Keeps log_submit arrival [] opening (fresh-IsServing stack stack-IsStack)
      arrival-IsShort opening-IsAbsent

-- The server with the linked list as its pool; `select` is interrupted once and fails after the round.
abbrev selected : List Selected
selected = Start.interrupted ∷ round arrival ∷ Start.failed ∷ []

abbrev prepared : Preparation
prepared = record {
  socket = some 3;
  setsockopt = true;
  inet_pton = true;
  bind = true;
  listen = true;
}

abbrev answers : Answers
answers = record {
  piped = some (4, 6);
  mutex = true;
  cond = true;
  rwlock = true;
  create = λ _. true;
}

server_start-held_example :
    ((true ≡ false)
      × (server_start (linked_workers calm) prepared answers selected stack [] calm ≡ (none, calm)))
    ⊎ ((result : Bool) × (out : Output) × (server_start
            (linked_workers calm)
            prepared
            answers
            selected
            stack
            []
            calm
          ≡ (some (result, [], out), calm))
        × ((x : ℕ) → amount x out.closed ≡ amount x (if result then 5 ∷ [] else [])))
server_start-held_example =
    server_start-held (linked_workers calm) prepared answers selected stack [] calm stack-IsStack
      IsLinked (linked_workers-PoolLaws calm) (λ pool. (arrival-IsShort, opening-IsAbsent, tt))
