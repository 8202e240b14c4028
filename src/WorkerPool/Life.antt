-- ===== src/WorkerPool/Life.antt =====
-- src/worker_pool.c: worker_pool_init and worker_pool_destroy, and what they acquire and release.
pub mod Balance
use in_mem_db.Base.{
  ℕ, zero, suc, ◌+◌, ◌-◌, Bool, true, false, Option, none, some, List, [], ◌∷◌, ◌==◌, ◌&&◌, not,
  if◌then◌else◌,
}
use in_mem_db.World.{Run, ◌>>=◌, ◌>>◌, pure}
use in_mem_db.WorkerPool.Queue.{Queue, Tasks, free_tasks}
use in_mem_db.WorkerPool.System.{worker_count}

-- What a process acquires and has to give back: a descriptor, what the pool's three `init` calls make, a thread.
pub data Resource : Type 0 where
  descriptor : ℕ → Resource
  queue_mutex : Resource
  queue_cond : Resource
  db_lock : Resource
  worker : ℕ → Resource

abbrev is_same : Resource → Resource → Bool
is_same (descriptor a) (descriptor b) = a == b
is_same (worker a) (worker b) = a == b
is_same queue_mutex queue_mutex = true
is_same queue_cond queue_cond = true
is_same db_lock db_lock = true
is_same _ _ = false

-- Giving back what is not held is an error, `none`.
unfoldable pub release : Resource → List Resource → Option (List Resource)
release r [] = none
release r (h ∷ held) =
    let rest = release r held in
    if is_same h r then some held else elim rest [ none ↦ none | some held' ↦ some (h ∷ held') ]

unfoldable pub release_all : List Resource → List Resource → Option (List Resource)
release_all [] held = some held
release_all (r ∷ rs) held = elim (release r held) [
  | none ↦ none
  | some held' ↦ release_all rs held'
]

-- What `pipe`, the three `init` calls and `pthread_create` answer.
pub record Answers : Type 0 where
  pub piped : Option (ℕ × ℕ)
  pub mutex : Bool
  pub cond : Bool
  pub rwlock : Bool
  pub create : ℕ → Bool

-- The fields of `WorkerPool` that the two functions use.
pub record WorkerPool : Type 0 where
  pub queue : Queue
  pub notify_read : ℕ
  pub notify_write : ℕ

abbrev pub blank : ℕ → ℕ → Bool → WorkerPool
blank r w shutting_down = record {
  queue = record { head = none; tail = none; shutting_down = shutting_down; tasks = λ _. none };
  notify_read = r;
  notify_write = w;
}

-- `pthread_join` of the workers from `j` on, `n` of them
abbrev pub joined : ℕ → ℕ → List Resource
joined zero j = []
joined (suc n) j = worker j ∷ joined n (suc j)

-- The rest of a failure: `undone` is given back, in this order.
abbrev pub give_up :
    WorkerPool → List Resource → List Resource → Option (Bool × WorkerPool × List Resource)
give_up pool undone held = elim (release_all undone held) [
  | none ↦ none
  | some held' ↦ some (false, pool, held')
]

-- "Create workers", `n` more, from the `i`-th on; `undone` is what a failure gives back after the joins.
unfoldable pub create_workers :
    Answers
    → WorkerPool
    → List Resource
    → ℕ
    → ℕ
    → List Resource
    → Option (Bool × WorkerPool × List Resource)
unfolding release_all
create_workers answers pool undone zero i held = some (true, pool, held)
create_workers answers pool undone (suc n) i held =
    let rest = create_workers answers pool undone n (suc i) (worker i ∷ held) in
    if answers.create i then rest else elim (release_all (joined i 0) held) [
      | none ↦ none
      | some held' ↦
          give_up (record pool { queue = record pool.queue { shutting_down = true } }) undone held'
    ]

unfoldable pub worker_pool_init :
    Answers → List Resource → Option (Bool × WorkerPool × List Resource)
unfolding create_workers
worker_pool_init answers held = elim answers.piped [
  | none ↦ some (false, blank 0 0 false, held)
  | some (r, w) ↦
      let pool = blank r w false in
      let ends : List Resource = descriptor r ∷ descriptor w ∷ [] in
      let held_pipe : List Resource = descriptor r ∷ descriptor w ∷ held in
      if not answers.mutex
      then give_up pool ends held_pipe
      else if not answers.cond
      then give_up pool (queue_mutex ∷ ends) (queue_mutex ∷ held_pipe)
      else if not answers.rwlock
      then give_up pool (queue_cond ∷ queue_mutex ∷ ends) (queue_cond ∷ queue_mutex ∷ held_pipe)
      else create_workers answers pool (db_lock ∷ queue_cond ∷ queue_mutex ∷ ends) worker_count 0
          (db_lock ∷ queue_cond ∷ queue_mutex ∷ held_pipe)
]

abbrev pub worker_pool_get_notify_fd : WorkerPool → ℕ
worker_pool_get_notify_fd pool = pool.notify_read

-- `pool` as the joins leave it, with fuel above the tasks that are still queued
unfoldable pub worker_pool_destroy :
    ℕ → WorkerPool → List Resource → Run (Option (WorkerPool × List Resource))
worker_pool_destroy fuel pool held = elim (release_all (joined worker_count 0) held) [
  | none ↦ pure none
  | some held' ↦ do
    freed ← free_tasks fuel pool.queue.head pool.queue.tasks
    let ends : List Resource = descriptor pool.notify_read ∷ descriptor pool.notify_write ∷ []
    pure (elim freed [
      | none ↦ none
      | some tasks ↦ elim (release_all (db_lock ∷ queue_cond ∷ queue_mutex ∷ ends) held') [
        | none ↦ none
        | some held'' ↦ some (
          record pool {
            queue = record { head = none; tail = none; shutting_down = true; tasks = tasks };
          },
          held'',
        )
      ]
    ])
]
