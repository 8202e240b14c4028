-- ===== src/WorkerPool/System/Sound.antt =====
-- The invariant of the workers of src/worker_pool.c, and what one worker that goes on does to it.
use in_mem_db.Base.{
  ℕ, ◌+◌, ◌*◌, ◌≤◌, ◌<◌, true, false, List, [], ◌++◌, ◌≡◌, ◌⊎◌, inl, inr, ◌∙◌, ap, refl, arith,
  length, length-set, if◌then◌else◌, set, ◌-◌, Bool, Bytes, All,
}
use in_mem_db.World.{World}
use in_mem_db.HashTable.{HashTable}
use in_mem_db.HashTable.Valid.{IsValid, entries}
use in_mem_db.Command.Contract.{command_execute-IsValid}
use in_mem_db.WorkerPool.Queue.{max_command_size}
use in_mem_db.WorkerPool.System.{Stage, System, worker_count, initial, stage, command_execute, Job}
use in_mem_db.WorkerPool.System.Seen.{Sees}
use in_mem_db.WorkerPool.System.Totals.{reads, writes, busy, stops, total, total-set, sleeps}

-- The table is valid, and the blocks are those of the table, of the tasks and `base` others; the lock
-- counts its holders, and a writer excludes the others; the history of the queue adds up; who holds the
-- lock has the present table before him; not all workers sleep beside a queued task, and none sleeps
-- when the pool shuts down; a worker has stopped only with the queue empty and the pool shutting down.
pub record IsSound (base : ℕ) (s : System) : Type 0 where
  pub valid : IsValid s.table
  pub owns : 3 * entries s.table + length s.queue + total busy s.workers + base ≡ s.world.live
  pub width : length s.workers ≡ worker_count
  pub readers : s.readers ≡ total reads s.workers
  pub writers : (if s.writer then 1 else 0) ≡ total writes s.workers
  pub exclusive : (s.writer ≡ false) ⊎ (s.readers ≡ 0)
  pub order : s.taken ++ s.queue ≡ s.submitted
  pub seen : All (Sees s.table) s.workers
  pub attended : (s.queue ≡ []) ⊎ (total sleeps s.workers < worker_count)
  pub awake : (s.shutting_down ≡ false) ⊎ (total sleeps s.workers ≡ 0)
  pub ended : (total stops s.workers ≡ 0) ⊎ ((s.shutting_down ≡ true) × (s.queue ≡ []))

pub initial-IsSound :
    (table : HashTable) (world : World)
    → IsValid table
    → 3 * entries table ≤ world.live
    → IsSound (world.live - 3 * entries table) (initial table world)
unfolding mathlib.Core.List.flatten
initial-IsSound table world valid owns = record {
  valid = valid;
  owns = omega arith;
  width = refl;
  readers = refl;
  writers = refl;
  exclusive = inl refl;
  order = refl;
  seen = (tt, (tt, (tt, (tt, tt))));
  attended = inl refl;
  awake = inl refl;
  ended = inl refl;
}

-- What a step of worker `i` from the stage `old` to the stage `new` does to the counts.
pub record Moved (workers : List Stage) (old new : Stage) (workers' : List Stage) : Type 0 where
  pub width : length workers' ≡ length workers
  pub busy : total busy workers' + busy old ≡ total busy workers + busy new
  pub reads : total reads workers' + reads old ≡ total reads workers + reads new
  pub writes : total writes workers' + writes old ≡ total writes workers + writes new
  pub stops : total stops workers' + stops old ≡ total stops workers + stops new
  pub sleeps : total sleeps workers' + sleeps old ≡ total sleeps workers + sleeps new

pub moved :
    (base : ℕ) (s : System) (i : ℕ) (old new : Stage)
    → IsSound base s
    → i < worker_count
    → stage s i ≡ old
    → Moved s.workers old new (set s.workers i new)
moved base s i old new sound inside at =
    let here : i < length s.workers = omega (arith, sound.width) in
    record {
      width = length-set s.workers i new;
      busy = total-set busy s.workers i old new here at;
      reads = total-set reads s.workers i old new here at;
      writes = total-set writes s.workers i old new here at;
      stops = total-set stops s.workers i old new here at;
      sleeps = total-set sleeps s.workers i old new here at;
    }

-- `command_execute` under a lock.
pub executed :
    {base : ℕ} (s : System) (job : Job) (t : HashTable)
    → t ≡ s.table
    → IsSound base s
    → IsValid (command_execute t job.command max_command_size s.world).0.table
      × ((command_execute t job.command max_command_size s.world).1.live + 3 * entries s.table
          ≡ s.world.live
            + 3 * entries (command_execute t job.command max_command_size s.world).0.table)
executed s job t now i =
    let (valid, owned) =
      command_execute-IsValid t job.command max_command_size s.world (rw now i.valid)
        (rw now (omega (arith, i.owns))) in
    (valid, omega (arith, owned, ap entries now))

-- A worker goes on from the stage `old` to the stage `new`, neither of which is the end, and leaves the
-- queue alone.
pub advance :
    {base : ℕ} (s : System) (old new : Stage) {workers' : List Stage} {readers' : ℕ}
    {writer' : Bool} {table' : HashTable} {notify_pipe' : List ℕ} {sent' : List (ℕ × Bytes)}
    → IsSound base s
    → Moved s.workers old new workers'
    → (world' : World) → IsValid table'
    → 3 * entries table' + busy new + s.world.live ≡ 3 * entries s.table + busy old + world'.live
    → readers' + reads old ≡ s.readers + reads new
    → stops old ≡ 0
    → stops new ≡ 0
    → sleeps new ≡ 0
    → All (Sees table') workers'
    → (if writer' then 1 else 0) + writes old ≡ (if s.writer then 1 else 0) + writes new
    → (writer' ≡ false) ⊎ (readers' ≡ 0)
    → IsSound base (record s {
      workers = workers';
      readers = readers';
      writer = writer';
      table = table';
      world = world';
      notify_pipe = notify_pipe';
      sent = sent';
    })
advance s old new i m world' valid live reading_now stays stays' goes_on seen writing_now
      exclusive =
    record {
      valid = valid;
      owns = omega (arith, i.owns, m.busy, live);
      width = m.width ∙ i.width;
      readers = omega (arith, i.readers, m.reads, reading_now);
      writers = omega (arith, i.writers, m.writes, writing_now);
      exclusive = exclusive;
      order = i.order;
      seen = seen;
      attended = elim i.attended [
        | inl empty ↦ inl empty
        | inr some_awake ↦ inr (omega (arith, m.sleeps, goes_on, some_awake))
      ];
      awake = elim i.awake [
        | inl running ↦ inl running
        | inr none_sleeps ↦ inr (omega (arith, m.sleeps, goes_on, none_sleeps))
      ];
      ended = elim i.ended [
        | inl none_yet ↦ inl (omega (arith, m.stops, stays, stays'))
        | inr over ↦ inr over
      ];
    }
