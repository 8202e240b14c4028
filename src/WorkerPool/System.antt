-- ===== src/WorkerPool/System.antt =====
-- src/worker_pool.c: the workers, as steps that may come in any order.
--
-- The queue is the list of its jobs, which Queue/Fifo shows of the linked list. A step is what a
-- thread does between two points where others can see it: the queue operations under the mutex, the
-- sleep on the condition variable, the taking of the read-write lock, `command_execute` with the
-- release of the lock, and the answer.
pub mod Totals
pub mod Seen
pub mod Sound
pub mod Invariant
pub mod Safety
pub mod Progress
pub mod Durable
pub mod Shutdown
use in_mem_db.Base.{
  ℕ, ◌+◌, ◌-◌, ◌<◌, Bool, true, false, not, ◌&&◌, List, [], ◌∷◌, ◌++◌, Bytes, ℤ, pos, ◌≡◌, take,
  get_or, set, replicate, if◌then◌else◌, negsuc, ◌==◌, ◌||◌,
}
use in_mem_db.World.{World, ahead}
use in_mem_db.HashTable.{HashTable}
use in_mem_db.Command.{command_execute}
use in_mem_db.WorkerPool.{is_read_command}
use in_mem_db.WorkerPool.Queue.{max_command_size}
use in_mem_db.WorkerPool.Queue.Cells.{Job}

abbrev pub worker_count : ℕ
worker_count = 4

-- Where a worker stands in `worker_main`: at the test of the loop that waits for a task, asleep in
-- `pthread_cond_wait`, with a task, with the task under the read or the write lock and the table as it
-- was when the lock was taken, with the answer to send, or behind the loop.
pub data Stage : Type 0 where
  waiting : Stage
  asleep : Stage
  picked : Job → Stage
  reading : Job → HashTable → Stage
  writing : Job → HashTable → Stage
  answered : Job → ℤ → Bytes → Stage
  stopped : Stage

-- `readers` and `writer` are the state of `db_lock`, `notify_pipe` the descriptors written to it, `sent`
-- what was handed to `send`. `submitted` and `taken` are the history of the queue.
pub record System : Type 0 where
  pub queue : List Job
  pub shutting_down : Bool
  pub workers : List Stage
  pub readers : ℕ
  pub writer : Bool
  pub table : HashTable
  pub world : World
  pub notify_pipe : List ℕ
  pub sent : List (ℕ × Bytes)
  pub submitted : List Job
  pub taken : List Job

-- The pool behind a successful `worker_pool_init`.
abbrev pub initial : HashTable → World → System
initial table world = record {
  queue = [];
  shutting_down = false;
  workers = waiting ∷ waiting ∷ waiting ∷ waiting ∷ [];
  readers = 0;
  writer = false;
  table = table;
  world = world;
  notify_pipe = [];
  sent = [];
  submitted = [];
  taken = [];
}

abbrev pub stage : System → ℕ → Stage
stage s i = get_or s.workers i stopped

-- What a wake-up does to a worker.
abbrev pub woken : Stage → Stage
woken asleep = waiting
woken a = a

-- `pthread_cond_broadcast`
abbrev pub broadcast : List Stage → List Stage
broadcast [] = []
broadcast (a ∷ workers) = woken a ∷ broadcast workers

abbrev pub is_asleep : Stage → Bool
is_asleep asleep = true
is_asleep _ = false

abbrev pub some_asleep : List Stage → Bool
some_asleep [] = false
some_asleep (a ∷ workers) = is_asleep a || some_asleep workers

-- `pthread_cond_signal` may wake worker `i`: it sleeps, or there is none to wake.
abbrev pub signals : System → ℕ → Bool
signals s i = is_asleep (stage s i) || not (some_asleep s.workers)

abbrev pub job_of : ℕ → Bytes → Job
job_of fd command = record { client_fd = fd; command = take (max_command_size - 1) command }

-- `send`, unless the response is empty
abbrev pub answer_to : ℕ → Bytes → List (ℕ × Bytes) → List (ℕ × Bytes)
answer_to fd [] sent = sent
answer_to fd (c ∷ response) sent = sent ++ (fd, c ∷ response) ∷ []

-- `write` to the pipe if the result is 1
abbrev pub notify : ℕ → ℤ → Bool → List ℕ → List ℕ
notify fd (negsuc n) notified pipe = pipe
notify fd (pos n) notified pipe = if (n == 1) && notified then pipe ++ fd ∷ [] else pipe

pub data Step (s : System) : System → Type 0 where
  -- `worker_pool_submit` that returns 1, with the signal to worker `i`, and that returns 0
  submit :
      (fd : ℕ) (command : Bytes) (i : ℕ)
      → i < worker_count
      → signals s i ≡ true
      → not s.shutting_down && s.world.heap 0 ≡ true
      → Step s (record s {
        queue = s.queue ++ job_of fd command ∷ [];
        workers = set s.workers i (woken (stage s i));
        world = record s.world { heap = ahead s.world.heap; live = s.world.live + 1 };
        submitted = s.submitted ++ job_of fd command ∷ [];
      })
  refuse :
      not s.shutting_down && s.world.heap 0 ≡ false
      → Step s (record s { world = record s.world { heap = ahead s.world.heap } })
  -- `worker_pool_destroy` sets the flag and wakes all workers
  shut_down : Step s (record s { shutting_down = true; workers = broadcast s.workers })
  -- `pthread_cond_wait` is called, and returns without a signal
  sleep :
      (i : ℕ)
      → i < worker_count
      → stage s i ≡ waiting
      → s.queue ≡ []
      → s.shutting_down ≡ false
      → Step s (record s { workers = set s.workers i asleep })
  wake :
      (i : ℕ)
      → i < worker_count
      → stage s i ≡ asleep
      → Step s (record s { workers = set s.workers i waiting })
  -- the wait is over: a task is there, or there is none and the pool shuts down
  pick :
      (i : ℕ) (job : Job) (rest : List Job)
      → i < worker_count
      → stage s i ≡ waiting
      → s.queue ≡ job ∷ rest
      → Step s (record s {
        queue = rest;
        workers = set s.workers i (picked job);
        taken = s.taken ++ job ∷ [];
      })
  leave :
      (i : ℕ)
      → i < worker_count
      → stage s i ≡ waiting
      → s.queue ≡ []
      → s.shutting_down ≡ true
      → Step s (record s { workers = set s.workers i stopped })
  -- `pthread_rwlock_rdlock` and `pthread_rwlock_wrlock` return
  read_lock :
      (i : ℕ) (job : Job)
      → i < worker_count
      → stage s i ≡ picked job
      → is_read_command job.command ≡ true
      → s.writer ≡ false
      → Step s
          (record s { workers = set s.workers i (reading job s.table); readers = s.readers + 1 })
  write_lock :
      (i : ℕ) (job : Job)
      → i < worker_count
      → stage s i ≡ picked job
      → is_read_command job.command ≡ false
      → s.writer ≡ false
      → s.readers ≡ 0
      → Step s (record s { workers = set s.workers i (writing job s.table); writer = true })
  -- `command_execute` on the table that the lock was taken on, and `pthread_rwlock_unlock`: what
  -- another worker did to the table in between is lost
  read :
      (i : ℕ) (job : Job) (t : HashTable)
      → i < worker_count
      → stage s i ≡ reading job t
      → Step s (
          let r = command_execute t job.command max_command_size s.world in
          record s {
            workers = set s.workers i (answered job r.0.result r.0.response);
            readers = s.readers - 1;
            table = r.0.table;
            world = r.1;
          })
  write :
      (i : ℕ) (job : Job) (t : HashTable)
      → i < worker_count
      → stage s i ≡ writing job t
      → Step s (
          let r = command_execute t job.command max_command_size s.world in
          record s {
            workers = set s.workers i (answered job r.0.result r.0.response);
            writer = false;
            table = r.0.table;
            world = r.1;
          })
  -- the response is sent if it is not empty, the pipe written if the result is 1 (`notified`: that
  -- write succeeds), the task freed
  finish :
      (i : ℕ) (job : Job) (result : ℤ) (response : Bytes) (notified : Bool)
      → i < worker_count
      → stage s i ≡ answered job result response
      → Step s (record s {
        workers = set s.workers i waiting;
        sent = answer_to job.client_fd response s.sent;
        notify_pipe = notify job.client_fd result notified s.notify_pipe;
        world = record s.world { live = s.world.live - 1 };
      })

pub data Reach (table : HashTable) (world : World) : System → Type 0 where
  start : Reach table world (initial table world)
  next : {s t : System} → Reach table world s → Step s t → Reach table world t
