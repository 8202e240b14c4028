-- ===== src/WorkerPool/System/Progress.antt =====
-- The shutdown of the pool of src/worker_pool.c: a measure of the work that is left.
use in_mem_db.Base.{
  ℕ, zero, suc, ◌+◌, ◌*◌, ◌≤◌, ◌<◌, true, false, List, [], ◌∷◌, ◌≡◌, ◌≢◌, ◌⊎◌, inl, inr, ap, refl,
  arith, length, get_or, Bool-cases,
}
use in_mem_db.World.{World}
use in_mem_db.HashTable.{HashTable}
use in_mem_db.HashTable.Valid.{IsValid, entries}
use in_mem_db.WorkerPool.{is_read_command}
use in_mem_db.WorkerPool.Queue.Cells.{Job}
use in_mem_db.WorkerPool.System.{
  Stage, waiting, asleep, picked, reading, writing, answered, stopped, System, worker_count, stage,
  Step, pick, leave, read_lock, write_lock, read, write, finish, Reach,
}
use in_mem_db.WorkerPool.System.Totals.{reads, writes, stops, total, total-set, sleeps}
use in_mem_db.WorkerPool.System.Sound.{IsSound}
use in_mem_db.WorkerPool.System.Invariant.{Reach-IsSound}

-- The steps that a worker has ahead before it stops, without the tasks that it will pick.
abbrev pub rank : Stage → ℕ
rank waiting = 1
rank asleep = 1
rank (picked job) = 4
rank (reading job t) = 3
rank (writing job t) = 3
rank (answered job result response) = 2
rank stopped = 0

-- The steps that are left when no task comes any more.
abbrev pub work : System → ℕ
work s = 4 * length s.queue + total rank s.workers

abbrev inside : Stage → ℕ
inside (reading job t) = 1
inside (writing job t) = 1
inside (answered job result response) = 1
inside _ = 0

abbrev picks : Stage → ℕ
picks (picked job) = 1
picks _ = 0

abbrev waits : Stage → ℕ
waits waiting = 1
waits _ = 0

none_or_some : (n : ℕ) → (n ≡ 0) ⊎ (n ≢ 0)
none_or_some zero = inl refl
none_or_some (suc n) = inr (λ h. cc)

-- A worker that counts, unless none does.
counted :
    (weight : Stage → ℕ) (workers : List Stage)
    → (total weight workers ≡ 0)
      ⊎ ((i : ℕ) × (i < length workers) × (weight (get_or workers i stopped) ≢ 0))
counted weight [] = inl refl
counted weight (a ∷ rest) = elim (counted weight rest) [
  | inr (i, below, counts) ↦ inr (suc i, omega arith, counts)
  | inl none_left ↦ elim (none_or_some (weight a)) [
    | inl nothing ↦ inl (omega arith)
    | inr counts ↦ inr (0, omega arith, counts)
  ]
]

total-split :
    (workers : List Stage)
    → (total stops workers
          + total inside workers
          + total picks workers
          + total waits workers
          + total sleeps workers
        ≡ length workers)
      × (total reads workers + total writes workers ≤ total inside workers)
      × (total rank workers
          ≤ 4
            * (total inside workers
                + total picks workers
                + total waits workers
                + total sleeps workers))
total-split [] = (refl, omega arith, omega arith)
total-split (a ∷ rest) = let (split, locks, ranks) = total-split rest in ground arith

-- A step that leaves one step less.
abbrev pub Shorter : System → Type 0
Shorter s = (t : System) × Step s t × (work t + 1 ≡ work s)

module _ {base : ℕ} (s : System) (sound : IsSound base s) (i : ℕ) (hi : i < worker_count) where
  here : i < length s.workers
  here = omega (arith, sound.width)

  inside_step : (a : Stage) → stage s i ≡ a → inside a ≢ 0 → Shorter s
  inside_step (reading job t) at counts =
      let step = read i job t hi at in
      (
        _,
        step,
        omega (arith, total-set rank s.workers i (reading job t) (answered job _ _) here at),
      )
  inside_step (writing job t) at counts =
      let step = write i job t hi at in
      (
        _,
        step,
        omega (arith, total-set rank s.workers i (writing job t) (answered job _ _) here at),
      )
  inside_step (answered job result response) at counts =
      let step = finish i job result response true hi at in
      (
        _,
        step,
        omega (arith, total-set rank s.workers i (answered job result response) waiting here at),
      )
  inside_step waiting at counts = absurd (counts refl)
  inside_step asleep at counts = absurd (counts refl)
  inside_step (picked job) at counts = absurd (counts refl)
  inside_step stopped at counts = absurd (counts refl)

  picked_step :
      s.writer ≡ false → s.readers ≡ 0 → (a : Stage) → stage s i ≡ a → picks a ≢ 0 → Shorter s
  picked_step free none_reads (picked job) at counts =
      elim (Bool-cases (is_read_command job.command)) [
        | inl reads_it ↦ (
          _,
          read_lock i job hi at reads_it free,
          omega (arith, total-set rank s.workers i (picked job) (reading job s.table) here at),
        )
        | inr writes_it ↦ (
          _,
          write_lock i job hi at writes_it free none_reads,
          omega (arith, total-set rank s.workers i (picked job) (writing job s.table) here at),
        )
      ]
  picked_step free none_reads waiting at counts = absurd (counts refl)
  picked_step free none_reads asleep at counts = absurd (counts refl)
  picked_step free none_reads (reading job t) at counts = absurd (counts refl)
  picked_step free none_reads (writing job t) at counts = absurd (counts refl)
  picked_step free none_reads (answered job result response) at counts = absurd (counts refl)
  picked_step free none_reads stopped at counts = absurd (counts refl)

  waiting_step :
      s.shutting_down ≡ true
      → (a : Stage) → stage s i ≡ a
      → waits a ≢ 0
      → (q : List Job) → s.queue ≡ q
      → Shorter s
  waiting_step shut waiting at counts [] none_there = (
    _,
    leave i hi at none_there shut,
    omega (arith, total-set rank s.workers i waiting stopped here at),
  )
  waiting_step shut waiting at counts (job ∷ rest) there = (
    _,
    pick i job rest hi at there,
    omega (arith, total-set rank s.workers i waiting (picked job) here at, ap length there),
  )
  waiting_step shut (picked job) at counts q there = absurd (counts refl)
  waiting_step shut (reading job t) at counts q there = absurd (counts refl)
  waiting_step shut (writing job t) at counts q there = absurd (counts refl)
  waiting_step shut (answered job result response) at counts q there = absurd (counts refl)
  waiting_step shut asleep at counts q there = absurd (counts refl)
  waiting_step shut stopped at counts q there = absurd (counts refl)

-- No deadlock, and shutdown ends: in every state that the pool reaches from a valid table whose blocks
-- are allocated, and in which it shuts down, either every worker has stopped and the queue is empty,
-- or there is a step that leaves exactly one step less of the work.
pub shutdown_progress :
    {table : HashTable} {world : World} {s : System}
    → IsValid table
    → 3 * entries table ≤ world.live
    → Reach table world s
    → s.shutting_down ≡ true
    → ((total stops s.workers ≡ worker_count) × (s.queue ≡ [])) ⊎ Shorter s
shutdown_progress {s} valid owns r shut =
    let sound = Reach-IsSound valid owns r in
    let (split, locks, ranks) = total-split s.workers in
    elim (counted inside s.workers) [
      | inr (i, below, counts) ↦
          inr (inside_step s sound i (omega (arith, sound.width)) _ refl counts)
      | inl none_inside ↦
          let free : s.writer ≡ false = ground (arith, sound.writers) in
          let none_reads : s.readers ≡ 0 = omega (arith, sound.readers) in
          elim (counted picks s.workers) [
            | inr (i, below, counts) ↦
                inr
                  (picked_step s sound i (omega (arith, sound.width)) free none_reads _ refl counts)
            | inl none_picked ↦ elim (counted waits s.workers) [
              | inr (i, below, counts) ↦
                  inr
                    (waiting_step s sound i (omega (arith, sound.width)) shut _ refl counts _ refl)
              | inl none_waits ↦
                  let none_sleeps : total sleeps s.workers ≡ 0 = elim sound.awake [
                    | inl running ↦ absurd (cc)
                    | inr none_sleeps ↦ none_sleeps
                  ] in
                  let all_stopped : total stops s.workers ≡ worker_count =
                    omega (arith, sound.width) in
                  inl (
                    all_stopped,
                    elim sound.ended [
                      | inl none_yet ↦ absurd (omega arith)
                      | inr (flag, empty) ↦ empty
                    ],
                  )
            ]
          ]
    ]
