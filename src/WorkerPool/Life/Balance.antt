-- ===== src/WorkerPool/Life/Balance.antt =====
-- src/worker_pool.c: the resources of worker_pool_init and worker_pool_destroy, compared.
use in_mem_db.Base.{
  ℕ, ◌-◌, ◌<◌, Bool, true, false, Option, none, some, List, [], ◌∷◌, ◌≡◌, ◌⊎◌, inl, inr, ◌∙◌, ap,
  refl, arith, ◌==◌, length, Bool-cases, Option-cases,
}
use in_mem_db.World.{World, ◌>>=◌}
use in_mem_db.WorkerPool.Queue.{free_tasks}
use in_mem_db.WorkerPool.Queue.Cells.{Cells, IsQueue}
use in_mem_db.WorkerPool.Queue.Fifo.{free_tasks-Stored}
use in_mem_db.WorkerPool.Life.{
  Resource, descriptor, queue_mutex, queue_cond, db_lock, worker, release, release_all, Answers,
  WorkerPool, blank, create_workers, worker_pool_init, worker_pool_destroy, give_up,
}

-- What a running pool holds on top of `held`.
abbrev pub acquired : WorkerPool → List Resource → List Resource
acquired pool held =
    worker 3
    ∷ worker 2
    ∷ worker 1
    ∷ worker 0
    ∷ db_lock
    ∷ queue_cond
    ∷ queue_mutex
    ∷ descriptor pool.notify_read
    ∷ descriptor pool.notify_write
    ∷ held

pub ==-refl : (n : ℕ) → (n == n) ≡ true
==-refl n = ground arith

release-ends :
    (r w : ℕ) (held : List Resource)
    → release_all (descriptor r ∷ descriptor w ∷ []) (descriptor r ∷ descriptor w ∷ held)
      ≡ some held
unfolding release_all release
release-ends r w held = rw (==-refl r, ==-refl w, release_all, release)

give_up-ends :
    (pool : WorkerPool) (r w : ℕ) (held : List Resource)
    → give_up pool (descriptor r ∷ descriptor w ∷ []) (descriptor r ∷ descriptor w ∷ held)
      ≡ some (false, pool, held)
give_up-ends pool r w held =
    ap
      (λ (o : Option (List Resource)). elim o [
        | none ↦ none
        | some held' ↦ some (false, pool, held')
      ])
      (release-ends r w held)

-- The end of an `init` that has the pipe: a failure has given all back, a success has the workers.
abbrev Balanced : WorkerPool → List Resource → Option (Bool × WorkerPool × List Resource) → Type 0
Balanced pool held result =
    ((pool' : WorkerPool) × (result ≡ some (false, pool', held)))
    ⊎ (result ≡ some (true, pool, acquired pool held))

-- The loop over the workers, at each of them that may fail.
create_workers-Balanced :
    (answers : Answers) (r w : ℕ) (held : List Resource)
    → Balanced (blank r w false) held (
        create_workers answers
          (blank r w false)
          (db_lock ∷ queue_cond ∷ queue_mutex ∷ descriptor r ∷ descriptor w ∷ [])
          4
          0
          (db_lock ∷ queue_cond ∷ queue_mutex ∷ descriptor r ∷ descriptor w ∷ held))
unfolding create_workers release_all release
create_workers-Balanced answers r w held = elim (Bool-cases (answers.create 0)) [
  | inr no0 ↦ inl (blank r w true, rw (no0) (give_up-ends (blank r w true) r w held))
  | inl yes0 ↦ elim (Bool-cases (answers.create 1)) [
    | inr no1 ↦ inl (blank r w true, rw (yes0, no1) (give_up-ends (blank r w true) r w held))
    | inl yes1 ↦ elim (Bool-cases (answers.create 2)) [
      | inr no2 ↦
          inl (blank r w true, rw (yes0, yes1, no2) (give_up-ends (blank r w true) r w held))
      | inl yes2 ↦ elim (Bool-cases (answers.create 3)) [
        | inr no3 ↦
            inl
              (blank r w true, rw (yes0, yes1, yes2, no3) (give_up-ends (blank r w true) r w held))
        | inl yes3 ↦ inr (rw (yes0, yes1, yes2, yes3))
      ]
    ]
  ]
]

worker_pool_init-Balanced :
    (answers : Answers) (r w : ℕ) (held : List Resource)
    → answers.piped ≡ some (r, w)
    → Balanced (blank r w false) held (worker_pool_init answers held)
unfolding worker_pool_init release_all release
worker_pool_init-Balanced answers r w held piped = elim (Bool-cases answers.mutex) [
  | inr no_mutex ↦
      inl (blank r w false, rw (piped, no_mutex) (give_up-ends (blank r w false) r w held))
  | inl mutex ↦ elim (Bool-cases answers.cond) [
    | inr no_cond ↦
        inl (blank r w false, rw (piped, mutex, no_cond) (give_up-ends (blank r w false) r w held))
    | inl cond ↦ elim (Bool-cases answers.rwlock) [
      | inr no_lock ↦ inl (
        blank r w false,
        rw (piped, mutex, cond, no_lock) (give_up-ends (blank r w false) r w held),
      )
      | inl lock ↦ rw (piped, mutex, cond, lock) (create_workers-Balanced answers r w held)
    ]
  ]
]

pub worker_pool_init-acquired :
    (answers : Answers) (held : List Resource)
    → ((pool : WorkerPool) × (worker_pool_init answers held ≡ some (false, pool, held)))
      ⊎ ((pool : WorkerPool) × (worker_pool_init answers held
            ≡ some (true, pool, acquired pool held))
          × IsQueue pool.queue []
          × (pool.queue.shutting_down ≡ false))
unfolding worker_pool_init
worker_pool_init-acquired answers held = elim (Option-cases answers.piped) [
  | inl no_pipe ↦ inl (blank 0 0 false, rw no_pipe)
  | inr (ends, piped) ↦ elim (worker_pool_init-Balanced answers ends.0 ends.1 held piped) [
    | inl (pool, failed_there) ↦ inl (pool, failed_there)
    | inr ran ↦
        inr (blank ends.0 ends.1 false, ran, record { head = refl; tail = refl; stored = tt }, refl)
  ]
]

pub worker_pool_destroy-acquired :
    (fuel : ℕ) (pool : WorkerPool) (held : List Resource) (q : Cells) (w : World)
    → IsQueue pool.queue q
    → length q < fuel
    → (pool' : WorkerPool) × (worker_pool_destroy fuel pool (acquired pool held) w
        ≡ (some (pool', held), record w { live = w.live - length q }))
      × IsQueue pool'.queue []
unfolding worker_pool_destroy release_all release
worker_pool_destroy-acquired fuel pool held q w h enough =
    let (tasks, ran, _) = free_tasks-Stored fuel pool.queue.tasks q w enough h.stored in
    let freed : free_tasks fuel pool.queue.head pool.queue.tasks w
        ≡ (some tasks, record w { live = w.live - length q }) =
      ap (λ a. free_tasks fuel a pool.queue.tasks w) h.head ∙ ran in
    (
      record {
        queue = record { head = none; tail = none; shutting_down = true; tasks = tasks };
        notify_read = pool.notify_read;
        notify_write = pool.notify_write;
      },
      rw (freed, ==-refl pool.notify_read, ==-refl pool.notify_write, ◌>>=◌),
      record { head = refl; tail = refl; stored = tt },
    )
