-- ===== src/WorkerPool/Queue.antt =====
-- src/worker_pool.c: the queue of tasks, a linked list with a head and a tail pointer.
--
-- A pointer is an address, `none` the null pointer. `tasks` has the blocks that are allocated; a read
-- through a pointer to no block gives `none`, which stands for undefined behaviour.
pub mod Cells
pub mod Fifo
use in_mem_db.Base.{
  ℕ, zero, suc, ◌-◌, Bool, true, false, Option, none, some, Bytes, ◌==◌, if◌then◌else◌, not, take,
}
use in_mem_db.World.{World, Run, ◌>>=◌, ◌>>◌, pure, malloc, free}

abbrev pub max_command_size : ℕ
max_command_size = 1024

pub record Task : Type 0 where
  pub client_fd : ℕ
  pub command : Bytes
  pub next : Option ℕ

abbrev pub Tasks : Type 0
Tasks = ℕ → Option Task

abbrev pub write : Tasks → ℕ → Option Task → Tasks
write tasks a t b = if a == b then t else tasks b

pub record Queue : Type 0 where
  pub head : Option ℕ
  pub tail : Option ℕ
  pub shutting_down : Bool
  pub tasks : Tasks

-- The task is unlinked; its block is the worker's from then on.
unfoldable pub task_pop : Queue → Option (Option ℕ × Queue)
task_pop pool = elim pool.head [
  | none ↦ some (none, pool)
  | some task ↦ elim (pool.tasks task) [
    | none ↦ none
    | some block ↦ some (
      some task,
      record pool {
        head = block.next;
        tail = elim block.next [ none ↦ none | some _ ↦ pool.tail ];
        tasks = write pool.tasks task (some (record block { next = none }));
      },
    )
  ]
]

-- "Add task to queue."
unfoldable pub task_push : ℕ → Queue → Option Queue
task_push task pool = elim pool.tail [
  | none ↦ some (record pool { head = some task; tail = some task })
  | some last ↦ elim (pool.tasks last) [
    | none ↦ none
    | some block ↦ some (record pool {
      tail = some task;
      tasks = write pool.tasks last (some (record block { next = some task }));
    })
  ]
]

-- `task` is the address that `malloc` returns if it grants the block. `strncpy` and the NUL behind it
-- keep at most 1023 bytes.
unfoldable pub worker_pool_submit : ℕ → Queue → ℕ → Bytes → Run (Option (Bool × Queue))
unfolding task_push
worker_pool_submit task pool client_fd command = do
  granted ← malloc
  if not granted then pure (some (false, pool)) else do
    let block : Task = record {
      client_fd = client_fd;
      command = take (max_command_size - 1) command;
      next = none;
    }
    if pool.shutting_down
        then (do free; pure (some (false, pool)))
        else pure
            (elim (task_push task (record pool { tasks = write pool.tasks task (some block) })) [
              | none ↦ none
              | some pool' ↦ some (true, pool')
            ])

-- "Free remaining queued tasks", with fuel above their number.
unfoldable pub free_tasks : ℕ → Option ℕ → Tasks → Run (Option Tasks)
free_tasks zero current tasks = pure none
free_tasks (suc fuel) current tasks = elim current [
  | none ↦ pure (some tasks)
  | some task ↦ elim (tasks task) [
    | none ↦ pure none
    | some block ↦ do free; free_tasks fuel block.next (write tasks task none)
  ]
]
