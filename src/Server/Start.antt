-- ===== src/Server/Start.antt =====
-- server_start of src/server.c: the socket, the pool, the rounds, and what is released at the end.
pub mod Release
pub mod Linked
use in_mem_db.WorkerPool.Queue.Cells.{IsQueue}
use in_mem_db.Base.{◌≡◌}
use in_mem_db.WorkerPool.Queue.{Queue}
use in_mem_db.Base.{
  map, ◌&&◌, ℕ, zero, suc, ◌+◌, Bool, true, false, Option, none, some, List, [], ◌∷◌, ◌++◌, Bytes,
  not, if◌then◌else◌, replicate,
}
use in_mem_db.World.{Run, ◌>>=◌, ◌>>◌, pure}
use in_mem_db.WorkerPool.Life.{
  Resource, descriptor, release, Answers, WorkerPool, worker_pool_init, worker_pool_destroy,
}
use in_mem_db.Server.{
  reset, Client, Output, Ready, Serving, max_clients, empty_slot, serve_round, hang_up,
}

-- What the calls that prepare the listening socket answer.
pub record Preparation : Type 0 where
  pub socket : Option ℕ
  pub setsockopt : Bool
  pub inet_pton : Bool
  pub bind : Bool
  pub listen : Bool

-- What `select` answers.
pub data Selected : Type 0 where
  interrupted : Selected
  failed : Selected
  round : Ready → Selected

abbrev pub quiet : Output
quiet = record { sends = []; closed = [] }

-- `close(server_fd)` and the result
abbrev pub leave : Bool → ℕ → Output → List Resource → Option (Bool × List Resource × Output)
leave result server_fd out held = elim (release (descriptor server_fd) held) [
  | none ↦ none
  | some held' ↦ some (result, held', out)
]

-- The clients that are still connected at the end.
abbrev pub close_all : List Client → Output → Output
close_all [] out = out
close_all (c ∷ clients) out =
    close_all clients (elim c.fd [ none ↦ out | some fd ↦ hang_up fd out ])

-- The pool as the thread of the server sees it. `begin` is the pool that `worker_pool_init` leaves,
-- `submit` is `worker_pool_submit`, and `settle` is the queue once the workers have been joined.
pub record Workers (P : Type 0) : Type 0 where
  pub begin : WorkerPool → P
  pub submit : ℕ → Bytes → P → Bool × P
  pub settle : P → Queue

-- What the server relies on in the pool, where `I` is what holds of it between two calls: it begins with
-- an empty queue, and the queue is empty when the workers have been joined.
pub record PoolLaws {P : Type 0} (workers : Workers P) (I : P → Type 0) : Type 0 where
  pub begins :
      (pool : WorkerPool)
      → IsQueue pool.queue []
      → pool.queue.shutting_down ≡ false
      → I (workers.begin pool)
  pub submits : (fd : ℕ) (command : Bytes) (p : P) → I p → I (workers.submit fd command p).1
  pub settles : (p : P) → I p → IsQueue (workers.settle p) []

module _ {P : Type 0} (workers : Workers P) where
  -- The rounds, until `select` fails; `none`: it has not failed yet.
  unfoldable pub serve_all : List Selected → Serving P → Option (Serving P)
  serve_all [] s = none
  serve_all (interrupted ∷ answers) s = serve_all answers s
  serve_all (failed ∷ answers) s = some s
  serve_all (round ready ∷ answers) s = serve_all answers (serve_round workers.submit ready s)

  -- What follows "Shutting down server...".
  unfoldable pub shut_down :
      ℕ → WorkerPool → List Resource → Serving P → Run (Option (Bool × List Resource × Output))
  unfolding worker_pool_destroy
  shut_down server_fd pool held s = do
    destroyed ← worker_pool_destroy 1 (record pool { queue = workers.settle s.pool }) held
    pure (elim destroyed [
      | none ↦ none
      | some (_, held') ↦ leave true server_fd (close_all s.clients s.out) held'
    ])

  -- `stack` is what the arrays hold when they are declared.
  unfoldable pub server_start :
      Preparation
      → Answers
      → List Selected
      → List Client
      → List Resource
      → Run (Option (Bool × List Resource × Output))
  unfolding worker_pool_init shut_down
  server_start prepared answers selected stack held = elim prepared.socket [
    | none ↦ pure (some (false, held, quiet))
    | some server_fd ↦
        let held' : List Resource = descriptor server_fd ∷ held in
        if not (prepared.setsockopt && prepared.inet_pton && prepared.bind && prepared.listen)
        then pure (leave false server_fd quiet held')
        else elim (worker_pool_init answers held') [
          | none ↦ pure none
          | some (started, pool, held'') ↦
              let clients = map (reset none) stack in
              let first : Serving P = record {
                clients = clients;
                pool = workers.begin pool;
                out = quiet;
              } in
              if not started
              then pure (leave false server_fd quiet held'')
              else elim (serve_all selected first) [
                | none ↦ pure none
                | some s ↦ shut_down server_fd pool held'' s
              ]
        ]
  ]
