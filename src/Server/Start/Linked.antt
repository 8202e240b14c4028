-- ===== src/Server/Start/Linked.antt =====
-- The linked list of src/worker_pool.c as the pool that src/server.c submits to.
use in_mem_db.Base.{
  ℕ, zero, suc, ◌≤◌, ◌<◌, Bool, false, Option, none, some, [], ◌∷◌, ◌++◌, Bytes, ◌≡◌, ◌≢◌, inl, inr,
  refl, arith, length, length-append, Bool-cases, Option-cases, ap, subst, take, ◌-◌, sym,
}
use in_mem_db.World.{World, malloc, free}
use in_mem_db.WorkerPool.Queue.{
  Queue, Task, write, task_pop, task_push, worker_pool_submit, max_command_size,
}
use in_mem_db.WorkerPool.Queue.Cells.{Cells, IsQueue}
use in_mem_db.WorkerPool.Queue.Fifo.{task_pop-IsQueue, worker_pool_submit-IsQueue}
use in_mem_db.WorkerPool.System.{job_of}
use in_mem_db.Server.Start.{Workers, PoolLaws}

-- The queue, the address of the next block, and the world.
pub record Linked : Type 0 where
  pub pool : Queue
  pub address : ℕ
  pub world : World

-- What a submission leaves in a block that is not allocated and is not the new one.
abbrev Untaken : ℕ → Option (Bool × Queue) → Type 0
Untaken a none = Unit
Untaken a (some (queued, pool)) = pool.tasks a ≡ none

submit-Untaken :
    (task : ℕ) (pool : Queue) (fd : ℕ) (command : Bytes) (w : World) (a : ℕ)
    → a ≢ task
    → pool.tasks a ≡ none
    → Untaken a (worker_pool_submit task pool fd command w).0
unfolding worker_pool_submit task_push malloc free
submit-Untaken task pool fd command w a other unused = elim (Bool-cases (w.heap 0)) [
  | inr denied ↦ rw denied unused
  | inl granted ↦ elim (Bool-cases pool.shutting_down) [
    | inl shut ↦ rw (granted, shut) unused
    | inr running ↦ elim (Option-cases pool.tail) [
      | inl empty ↦ rw (granted, running, empty, worker_pool_submit) (ground (arith, unused, other))
      | inr (last, there) ↦
          let block : Task = record {
            client_fd = fd;
            command = take (max_command_size - 1) command;
            next = none;
          } in
          elim (Option-cases (write pool.tasks task (some block) last)) [
            | inl dangling ↦ rw (granted, running, there, dangling, worker_pool_submit) tt
            | inr (old, held) ↦
                rw (granted, running, there, held, worker_pool_submit)
                  (ground (arith, unused, other, held))
          ]
    ]
  ]
]

-- The workers take the tasks until there is none, as many as there may be.
pub drain : ℕ → Queue → Queue
drain zero pool = pool
drain (suc n) pool = elim (task_pop pool) [
  | none ↦ pool
  | some (none, pool') ↦ pool'
  | some (some _, pool') ↦ drain n pool'
]

drain-IsQueue :
    (n : ℕ) (pool : Queue) (q : Cells) → IsQueue pool q → length q < n → IsQueue (drain n pool) []
unfolding drain
drain-IsQueue zero pool q h enough = absurd (omega (arith, enough))
drain-IsQueue (suc n) pool q h enough = elim (task_pop-IsQueue pool q h) [
  | inl (empty, none_there) ↦ rw (none_there, drain) (subst (IsQueue pool) empty h)
  | inr (a, j, rest, pool', shape, popped, _, _, h') ↦
      rw (popped, drain) (drain-IsQueue n pool' rest h' (omega (arith, enough, ap length shape)))
]

-- The list stands for some tasks, fewer than the address of the next block, and no block from there on
-- is allocated.
pub record IsLinked (p : Linked) : Type 0 where
  pub cells : Cells
  pub queue : IsQueue p.pool cells
  pub few : length cells ≤ p.address
  pub unused : (a : ℕ) → p.address ≤ a → p.pool.tasks a ≡ none

abbrev pub after : Linked → Option (Bool × Queue) → World → Bool × Linked
after p none w = (false, p)
after p (some (queued, pool)) w =
    (queued, record { pool = pool; address = suc p.address; world = w })

-- A submission leaves such a list.
submit-IsLinked :
    (fd : ℕ) (command : Bytes) (p : Linked)
    → IsLinked p
    → IsLinked
        (after p
          (worker_pool_submit p.address p.pool fd command p.world).0
          (worker_pool_submit p.address p.pool fd command p.world).1).1
submit-IsLinked fd command p h =
    let r = worker_pool_submit p.address p.pool fd command p.world in
    let unused : (a : ℕ) → suc p.address ≤ a → Untaken a r.0 = λ a above.
      submit-Untaken p.address p.pool fd command p.world a (omega arith)
        (h.unused a (omega arith)) in
    elim (worker_pool_submit-IsQueue p.address p.pool h.cells fd command p.world h.queue
      (h.unused p.address (omega arith))) [
        | inl (_, _, pool', ran, _, queue) ↦
            subst (λ o. IsLinked (after p o r.1).1) (sym ran)
              (record {
                cells = h.cells ++ (p.address, job_of fd command) ∷ [];
                queue = queue;
                few =
                    omega
                      (arith, h.few, length-append h.cells ((p.address, job_of fd command) ∷ []));
                unused = λ a above. subst (Untaken a) ran (unused a above);
              })
        | inr (_, _, ran) ↦
            subst (λ o. IsLinked (after p o r.1).1) (sym ran)
              (record {
                cells = h.cells;
                queue = h.queue;
                few = omega (arith, h.few);
                unused = λ a above. h.unused a (omega arith);
              })
      ]

-- The pool whose heap of tasks is empty at the beginning.
abbrev pub linked_workers : World → Workers Linked
linked_workers world = record {
  begin =
      λ pool. record { pool = record pool.queue { tasks = λ _. none }; address = 0; world = world };
  submit = λ fd command p.
      after p (worker_pool_submit p.address p.pool fd command p.world).0
        (worker_pool_submit p.address p.pool fd command p.world).1;
  settle = λ p. drain (suc p.address) p.pool;
}

-- The linked list is a pool as the server relies on it.
pub linked_workers-PoolLaws : (world : World) → PoolLaws (linked_workers world) IsLinked
linked_workers-PoolLaws world = record {
  begins = λ pool queue running. record {
    cells = [];
    queue = record { head = queue.head; tail = queue.tail; stored = tt };
    few = omega arith;
    unused = λ a above. refl;
  };
  submits = submit-IsLinked;
  settles = λ p h. drain-IsQueue (suc p.address) p.pool h.cells h.queue (omega (arith, h.few));
}
