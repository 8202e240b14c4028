-- ===== src/WorkerPool/System/Safety.antt =====
-- Mutual exclusion, and the order and the fate of the tasks, in the pool of src/worker_pool.c.
use in_mem_db.Base.{
  ℕ, ◌*◌, ◌≤◌, ◌<◌, true, [], ◌++◌, ◌≡◌, ◌≢◌, inl, inr, ◌∙◌, ap, sym, arith, append-nil, length,
}
use in_mem_db.World.{World}
use in_mem_db.HashTable.{HashTable}
use in_mem_db.HashTable.Valid.{IsValid, entries}
use in_mem_db.WorkerPool.Queue.Cells.{Job}
use in_mem_db.WorkerPool.System.{writing, stopped, System, worker_count, stage, Reach}
use in_mem_db.WorkerPool.System.Totals.{reads, writes, stops, weight-≤, weights-≤}
use in_mem_db.WorkerPool.System.Invariant.{Reach-IsSound}

-- In every state that the pool reaches from a valid table whose blocks are allocated, while a
-- worker holds the write lock no other worker holds either lock.
pub mutual_exclusion :
    {table : HashTable} {world : World} {s : System}
    → IsValid table
    → 3 * entries table ≤ world.live
    → Reach table world s
    → (i j : ℕ) (job : Job) (t : HashTable) → i < worker_count
    → j < worker_count
    → i ≢ j
    → stage s i ≡ writing job t
    → (reads (stage s j) ≡ 0) × (writes (stage s j) ≡ 0)
mutual_exclusion {s} valid owns r i j job t hi hj apart at =
    let sound = Reach-IsSound valid owns r in
    let here : i < length s.workers = omega (arith, sound.width) in
    let there : j < length s.workers = omega (arith, sound.width) in
    let one : writes (stage s i) ≡ 1 = rw at in
    let held = weight-≤ writes s.workers i here in
    let both = weights-≤ writes s.workers i j here there apart in
    let others = weight-≤ reads s.workers j there in
    let taken : s.writer ≡ true = ground (arith, sound.writers) in
    (
      elim sound.exclusive [
        | inl free ↦ absurd (cc)
        | inr none_reads ↦ omega (arith, sound.readers)
      ],
      ground (arith, sound.writers),
    )

-- When some worker has stopped, in a state that the pool reaches from a valid table whose blocks
-- are allocated, the queue is empty and every task that was submitted has been taken, in the
-- order of the submissions: the loop of `worker_pool_destroy` that frees queued tasks finds none.
pub stopped-taken :
    {table : HashTable} {world : World} {s : System}
    → IsValid table
    → 3 * entries table ≤ world.live
    → Reach table world s
    → (i : ℕ) → i < worker_count
    → stage s i ≡ stopped
    → (s.queue ≡ []) × (s.taken ≡ s.submitted)
stopped-taken {s} valid owns r i hi at =
    let sound = Reach-IsSound valid owns r in
    let here : i < length s.workers = omega (arith, sound.width) in
    let one : stops (stage s i) ≡ 1 = rw at in
    let some_stops = weight-≤ stops s.workers i here in
    elim sound.ended [
      | inl none_yet ↦ absurd (omega arith)
      | inr (shut, empty) ↦
          (empty, sym (append-nil s.taken) ∙ ap (λ q. s.taken ++ q) (sym empty) ∙ sound.order)
    ]
