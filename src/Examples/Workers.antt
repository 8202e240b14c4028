-- ===== src/Examples/Workers.antt =====
-- The theorems on the queue and the workers of src/worker_pool.c at concrete inputs.
use in_mem_db.WorkerPool.System.Shutdown.{Closes, Stops, shutdown_ends}
use in_mem_db.World.{ahead}
use in_mem_db.Command.{command_execute}
use in_mem_db.Command.Served.{Recorded}
use in_mem_db.WorkerPool.System.Durable.{Reach-Recorded}
use in_mem_db.Examples.{one_line, recorded, World}
use in_mem_db.Base.{
  ℕ, codes, [], ◌∷◌, ◌++◌, some, none, true, false, refl, ◌≡◌, arith, ◌⊎◌, ◌+◌, ◌-◌, take, not,
  ◌&&◌, ◌*◌, pos,
}
use in_mem_db.Command.Tests.{run, calm}
use in_mem_db.WorkerPool.Queue.{Queue, write, task_pop, worker_pool_submit, max_command_size}
use in_mem_db.WorkerPool.Queue.Cells.{Job, Cells, task_of, IsQueue}
use in_mem_db.WorkerPool.Queue.Fifo.{task_pop-IsQueue, worker_pool_submit-IsQueue}
use in_mem_db.WorkerPool.System.{
  System, Reach, start, next, submit, pick, write_lock, sleep, shut_down, leave, job_of, stage,
  Step,
}
use in_mem_db.WorkerPool.System.Totals.{reads, writes}
use in_mem_db.WorkerPool.System.Sound.{IsSound}
use in_mem_db.WorkerPool.System.Invariant.{Reach-IsSound}
use in_mem_db.WorkerPool.System.Safety.{mutual_exclusion, stopped-taken}
use in_mem_db.WorkerPool
use in_mem_db.Examples.{table, world, made, table-owns, entries}

-- A queue of two tasks, in the blocks 5 and 9.
abbrev first_job : Job
first_job = record { client_fd = 7; command = codes "get a" }

abbrev second_job : Job
second_job = record { client_fd = 8; command = codes "del a" }

abbrev two_cells : Cells
two_cells = (5, first_job) ∷ (9, second_job) ∷ []

abbrev two_tasks : Queue
two_tasks = record {
  head = some 5;
  tail = some 9;
  shutting_down = false;
  tasks =
      write (write (λ _. none) 9 (some (task_of second_job none))) 5
        (some (task_of first_job (some 9)));
}

two_tasks-IsQueue : IsQueue two_tasks two_cells
two_tasks-IsQueue = record { head = refl; tail = refl; stored = (refl, refl, (refl, refl, tt)) }

task_pop-IsQueue_example :
    (two_cells ≡ [] × (task_pop two_tasks ≡ some (none, two_tasks)))
    ⊎ ((a : ℕ) × (j : Job) × (rest : Cells) × (pool' : Queue) × (two_cells ≡ (a, j) ∷ rest)
        × (task_pop two_tasks ≡ some (some a, pool'))
        × (pool'.tasks a ≡ some (task_of j none))
        × (pool'.shutting_down ≡ false)
        × IsQueue pool' rest)
task_pop-IsQueue_example = task_pop-IsQueue two_tasks two_cells two_tasks-IsQueue

worker_pool_submit-IsQueue_example :
    ((true ≡ true)
      × ((worker_pool_submit 3 two_tasks 7 (codes "ping") calm).1.live ≡ calm.live + 1)
      × (pool' : Queue) × ((worker_pool_submit 3 two_tasks 7 (codes "ping") calm).0
          ≡ some (true, pool'))
      × (pool'.shutting_down ≡ false)
      × IsQueue pool' (
          two_cells
          ++ (3, record { client_fd = 7; command = take (max_command_size - 1) (codes "ping") })
            ∷ []))
    ⊎ ((true ≡ false)
        × ((worker_pool_submit 3 two_tasks 7 (codes "ping") calm).1.live ≡ calm.live)
        × ((worker_pool_submit 3 two_tasks 7 (codes "ping") calm).0 ≡ some (false, two_tasks)))
worker_pool_submit-IsQueue_example =
    worker_pool_submit-IsQueue 3 two_tasks two_cells 7 (codes "ping") calm two_tasks-IsQueue refl

-- A client sends "set b 2", and the first worker has it under the write lock.
abbrev set_job : Job
set_job = job_of 7 (codes "set b 2")

set_writes : WorkerPool.is_read_command set_job.command ≡ false
unfolding run WorkerPool.to_lower WorkerPool.starts_same WorkerPool.word_ends
    WorkerPool.is_read_command
set_writes = refl

heap_ready : not false && world.heap 0 ≡ true
unfolding run
heap_ready = refl

abbrev at_work : (s : System) × Reach table world s
at_work = (
  _,
  next
      (next (next start (submit 7 (codes "set b 2") 0 (omega arith) refl heap_ready))
        (pick 0 set_job [] (omega arith) refl refl))
      (write_lock 0 set_job (omega arith) refl set_writes refl refl),
)

Reach-IsSound_example : IsSound (world.live - 3 * entries table) at_work.0
Reach-IsSound_example = Reach-IsSound made.valid table-owns at_work.1

mutual_exclusion_example : (reads (stage at_work.0 2) ≡ 0) × (writes (stage at_work.0 2) ≡ 0)
mutual_exclusion_example =
    mutual_exclusion made.valid table-owns at_work.1 0 2 set_job table (omega arith) (omega arith)
      (omega arith) refl

-- The second worker falls asleep, the pool shuts down and wakes it, and it leaves.
abbrev closing_down : (s : System) × Reach table world s
closing_down = (
  _,
  next (next (next at_work.1 (sleep 1 (omega arith) refl refl refl)) shut_down)
      (leave 1 (omega arith) refl refl refl),
)

stopped-taken_example :
    (closing_down.0.queue ≡ []) × (closing_down.0.taken ≡ closing_down.0.submitted)
stopped-taken_example = stopped-taken made.valid table-owns closing_down.1 1 (omega arith) refl

abbrev leave_next : (t : System) × Step closing_down.0 t
leave_next = (_, leave 2 (omega arith) refl refl refl)

shutdown_ends_example : Closes closing_down.0 leave_next.0 × Stops leave_next.0
shutdown_ends_example = shutdown_ends made.valid table-owns closing_down.1 refl leave_next.1

-- The same command on the table that its file records, up to the release of the lock.
one_line-heap : not false && one_line.heap 0 ≡ true
unfolding run
one_line-heap = refl

abbrev done : (s : System) × Reach table one_line s
done = (
  _,
  next
      (next
        (next (next start (submit 7 (codes "set b 2") 0 (omega arith) refl one_line-heap))
          (pick 0 set_job [] (omega arith) refl refl))
        (write_lock 0 set_job (omega arith) refl set_writes refl refl))
      (Step.write 0 set_job table (omega arith) refl),
)

abbrev submitted_one : World
submitted_one = record one_line { heap = ahead one_line.heap; live = one_line.live + 1 }

set_good : (command_execute table set_job.command max_command_size submitted_one).0.result ≡ pos 0
unfolding run
set_good = refl

Reach-Recorded_example : Recorded done.0.table done.0.world
Reach-Recorded_example = Reach-Recorded done.1 ((((tt, tt), tt), tt), set_good) recorded
