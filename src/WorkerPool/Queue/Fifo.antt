-- ===== src/WorkerPool/Queue/Fifo.antt =====
-- Submitting to the queue of src/worker_pool.c and taking from it.
use in_mem_db.Base.{
  ℕ, zero, suc, true, false, none, some, Bytes, [], ◌∷◌, ◌++◌, ◌≡◌, ◌<◌, ◌∙◌, refl, arith, take,
  ◌-◌, ◌+◌, ◌⊎◌, inl, inr, length, Bool-cases, not, sym, ◌&&◌, if◌then◌else◌,
}
use in_mem_db.World.{World, malloc, free}
use in_mem_db.WorkerPool.Queue.{
  Tasks, Queue, write, task_pop, task_push, worker_pool_submit, free_tasks, max_command_size, ◌>>=◌,
}
use in_mem_db.WorkerPool.Queue.Cells.{
  Job, Cells, task_of, has, front, Stored, IsQueue, Stored-write, not-has, Stored-back, Stored-push,
  back-cons, back-append,
}

-- An empty queue gives no task and stays; otherwise the first task is taken, its block holds it with
-- no successor, and the rest is the queue.
pub task_pop-IsQueue :
    (pool : Queue) (q : Cells)
    → IsQueue pool q
    → ((q ≡ []) × (task_pop pool ≡ some (none, pool)))
      ⊎ ((a : ℕ) × (j : Job) × (rest : Cells) × (pool' : Queue) × (q ≡ (a, j) ∷ rest)
          × (task_pop pool ≡ some (some a, pool'))
          × (pool'.tasks a ≡ some (task_of j none))
          × (pool'.shutting_down ≡ pool.shutting_down)
          × IsQueue pool' rest)
unfolding task_pop
task_pop-IsQueue pool [] i = inl (refl, ground (arith, i.head))
task_pop-IsQueue pool ((a, j) ∷ []) i = inr (
  a,
  j,
  [],
  record {
    head = none;
    tail = none;
    shutting_down = pool.shutting_down;
    tasks = write pool.tasks a (some (task_of j none));
  },
  refl,
  rw (i.head, i.stored.0, task_pop),
  ground arith,
  refl,
  record { head = refl; tail = refl; stored = tt },
)
task_pop-IsQueue pool ((a, j) ∷ (b, k) ∷ rest) i = inr (
  a,
  j,
  (b, k) ∷ rest,
  record {
    head = some b;
    tail = pool.tail;
    shutting_down = pool.shutting_down;
    tasks = write pool.tasks a (some (task_of j none));
  },
  refl,
  rw (i.head, i.stored.0, task_pop),
  ground arith,
  refl,
  record {
    head = refl;
    tail = i.tail;
    stored =
        Stored-write pool.tasks ((b, k) ∷ rest) a (some (task_of j none)) i.stored.1 i.stored.2;
  },
)

task_push-IsQueue :
    (pool : Queue) (q : Cells) (new : ℕ) (j : Job)
    → IsQueue pool q
    → has new q ≡ false
    → pool.tasks new ≡ some (task_of j none)
    → (pool' : Queue) × (task_push new pool ≡ some pool')
      × (pool'.shutting_down ≡ pool.shutting_down)
      × IsQueue pool' (q ++ (new, j) ∷ [])
unfolding task_push
task_push-IsQueue pool [] new j i out at = (
  record pool { head = some new; tail = some new },
  ground (arith, i.tail),
  refl,
  record { head = refl; tail = refl; stored = (at, refl, tt) },
)
task_push-IsQueue pool ((b, k) ∷ q) new j i out at =
    let (last, ends) = back-cons b k q in
    let (l, there) = Stored-back pool.tasks ((b, k) ∷ q) last i.stored ends in
    (
      record pool {
        tail = some new;
        tasks = write pool.tasks last (some (record (task_of l none) { next = some new }));
      },
      ground (arith, i.tail, ends, there),
      refl,
      record {
        head = i.head;
        tail = sym (back-append ((b, k) ∷ q) new j);
        stored =
            Stored-push pool.tasks ((b, k) ∷ q) last new j (task_of l none) out at i.stored ends
              there;
      },
    )

-- A submission, with `task` the free address that `malloc` would return. If the pool is not shutting
-- down and the heap grants the block, the command, cut to 1023 bytes, stands behind the queue, and one
-- more block is live; otherwise 0 is returned, and the pool and the number of blocks are as before.
pub worker_pool_submit-IsQueue :
    (task : ℕ) (pool : Queue) (q : Cells) (fd : ℕ) (command : Bytes) (w : World)
    → IsQueue pool q
    → pool.tasks task ≡ none
    → ((not pool.shutting_down && w.heap 0 ≡ true)
        × ((worker_pool_submit task pool fd command w).1.live ≡ w.live + 1)
        × (pool' : Queue) × ((worker_pool_submit task pool fd command w).0 ≡ some (true, pool'))
        × (pool'.shutting_down ≡ false)
        × IsQueue pool' (
            q
            ++ (task, record { client_fd = fd; command = take (max_command_size - 1) command })
              ∷ []))
      ⊎ ((not pool.shutting_down && w.heap 0 ≡ false)
          × ((worker_pool_submit task pool fd command w).1.live ≡ w.live)
          × ((worker_pool_submit task pool fd command w).0 ≡ some (false, pool)))
unfolding worker_pool_submit malloc free
worker_pool_submit-IsQueue task pool q fd command w i unused =
    elim (Bool-cases (not pool.shutting_down && w.heap 0)) [
      | inr refused ↦ inr (refused, ground arith, ground arith)
      | inl accepted ↦
          let open_ : pool.shutting_down ≡ false = ground arith in
          let granted : w.heap 0 ≡ true = ground arith in
          let j : Job = record { client_fd = fd; command = take (max_command_size - 1) command } in
          let stored = record pool { tasks = write pool.tasks task (some (task_of j none)) } in
          let out = not-has pool.tasks q task i.stored unused in
          let i' : IsQueue stored q = record {
            head = i.head;
            tail = i.tail;
            stored = Stored-write pool.tasks q task (some (task_of j none)) out i.stored;
          } in
          let (pool', pushed, shut, queue) =
            task_push-IsQueue stored q task j i' out (ground arith) in
          inl (accepted, ground arith, pool', ground (arith, pushed), shut ∙ open_, queue)
    ]

-- Freeing the tasks that are left, with fuel above their number: every one of their blocks is freed
-- once, and no other block is touched.
pub free_tasks-Stored :
    (fuel : ℕ) (tasks : Tasks) (q : Cells) (w : World)
    → length q < fuel
    → Stored tasks q
    → (tasks' : Tasks) × (free_tasks fuel (front q) tasks w
        ≡ (some tasks', record w { live = w.live - length q }))
      × ((a : ℕ) → tasks' a ≡ (if has a q then none else tasks a))
unfolding free_tasks free
free_tasks-Stored zero tasks q w h s = absurd (omega arith)
free_tasks-Stored (suc fuel) tasks [] w h s = (tasks, ground arith, λ a. refl)
free_tasks-Stored (suc fuel) tasks ((b, j) ∷ q) w h s =
    let w' = record w { live = w.live - 1 } in
    let (tasks', ran, freed) =
      free_tasks-Stored fuel (write tasks b none) q w' (omega arith)
        (Stored-write tasks q b none s.1 s.2) in
    (tasks', rw (s.0, free_tasks, ◌>>=◌) (ran ∙ ground arith), λ a. freed a ∙ ground arith)
