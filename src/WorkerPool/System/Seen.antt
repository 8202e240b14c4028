-- ===== src/WorkerPool/System/Seen.antt =====
-- The table that a worker of src/worker_pool.c has before it under a lock.
use in_mem_db.Base.{ℕ, zero, suc, true, List, [], ◌∷◌, ◌≡◌, All, arith, get_or, set}
use in_mem_db.HashTable.{HashTable}
use in_mem_db.WorkerPool.{is_read_command}
use in_mem_db.WorkerPool.System.{
  Stage, waiting, asleep, picked, reading, writing, answered, stopped, woken, broadcast,
}
use in_mem_db.WorkerPool.System.Totals.{reads, writes, total}

-- A worker under a lock has the present table before it, and under the read lock a command that reads.
abbrev pub Sees : HashTable → Stage → Type 0
Sees table (reading job t) = (t ≡ table) × (is_read_command job.command ≡ true)
Sees table (writing job t) = t ≡ table
Sees table _ = Unit

module _ (table : HashTable) where
  -- One worker goes on to another stage.
  pub Sees-set :
      (workers : List Stage) (i : ℕ) (new : Stage)
      → All (Sees table) workers
      → Sees table new
      → All (Sees table) (set workers i new)
  Sees-set [] i new seen now = tt
  Sees-set (a ∷ rest) zero new seen now = (now, seen.1)
  Sees-set (a ∷ rest) (suc i) new seen now = (seen.0, Sees-set rest i new seen.1 now)

  pub Sees-get :
      (workers : List Stage) (i : ℕ)
      → All (Sees table) workers
      → Sees table (get_or workers i stopped)
  Sees-get [] i seen = tt
  Sees-get (a ∷ rest) zero seen = seen.0
  Sees-get (a ∷ rest) (suc i) seen = Sees-get rest i seen.1

  pub Sees-woken : (a : Stage) → Sees table a → Sees table (woken a)
  Sees-woken waiting now = tt
  Sees-woken asleep now = tt
  Sees-woken (picked job) now = tt
  Sees-woken (reading job t) now = now
  Sees-woken (writing job t) now = now
  Sees-woken (answered job result response) now = tt
  Sees-woken stopped now = tt

  pub Sees-broadcast :
      (workers : List Stage) → All (Sees table) workers → All (Sees table) (broadcast workers)
  Sees-broadcast [] seen = tt
  Sees-broadcast (a ∷ rest) seen = (Sees-woken a seen.0, Sees-broadcast rest seen.1)

  outside : (a : Stage) → reads a ≡ 0 → writes a ≡ 0 → Sees table a
  outside (reading job t) no_read no_write = absurd (omega arith)
  outside (writing job t) no_read no_write = absurd (omega arith)
  outside waiting no_read no_write = tt
  outside asleep no_read no_write = tt
  outside (picked job) no_read no_write = tt
  outside (answered job result response) no_read no_write = tt
  outside stopped no_read no_write = tt

  -- With nobody under a lock, any table will do.
  pub Sees-outside :
      (workers : List Stage)
      → total reads workers ≡ 0
      → total writes workers ≡ 0
      → All (Sees table) workers
  Sees-outside [] no_read no_write = tt
  Sees-outside (a ∷ rest) no_read no_write =
      (outside a (omega arith) (omega arith), Sees-outside rest (omega arith) (omega arith))
