-- ===== src/WorkerPool/System/Durable.antt =====
-- The append-only file beside the workers of src/worker_pool.c.
use in_mem_db.Base.{ap, ℕ, pos, ◌≡◌, ◌∙◌, refl, arith, subst, sym}
use in_mem_db.World.{World}
use in_mem_db.HashTable.{HashTable}
use in_mem_db.HashTable.Valid.{lookup}
use in_mem_db.Persistence.{contents}
use in_mem_db.Command.{command_execute}
use in_mem_db.Command.Served.{Recorded, command-Recorded}
use in_mem_db.WorkerPool.Queue.{max_command_size}
use in_mem_db.WorkerPool.System.{
  System, Step, submit, refuse, shut_down, pick, leave, read_lock, write_lock, read, write, finish,
  Reach, start, next,
}
use in_mem_db.WorkerPool.System.{reading, writing, sleep, wake, Stage, stage}
use in_mem_db.WorkerPool.Queue.Cells.{Job}
use in_mem_db.WorkerPool.System.Seen.{Sees, Sees-get}
use in_mem_db.WorkerPool.System.Sound.{IsSound}
use in_mem_db.WorkerPool.System.Invariant.{Reach-IsSound}

-- A command that the step executes answers 0.
abbrev pub IsGood : {s t : System} → Step s t → Type 0
IsGood {s} (read i job t inside at) =
    (command_execute t job.command max_command_size s.world).0.result ≡ pos 0
IsGood {s} (write i job t inside at) =
    (command_execute t job.command max_command_size s.world).0.result ≡ pos 0
IsGood _ = Unit

-- All commands of a run answer 0.
abbrev pub AllGood : {table : HashTable} {world : World} {s : System} → Reach table world s → Type 0
AllGood start = Unit
AllGood (next before step) = AllGood before × IsGood step

-- The file and the table are as before, the blocks of the table are there.
kept :
    {base : ℕ} (s t : System)
    → IsSound base t
    → Recorded s.table s.world
    → t.table ≡ s.table
    → t.world.aof ≡ s.world.aof
    → Recorded t.table t.world
kept s t sound r same file = record {
  valid = sound.valid;
  owns = omega (arith, sound.owns);
  changes = r.changes;
  text = ap contents file ∙ r.text;
  reads = λ q. ap (λ u. lookup u q) same ∙ r.reads q;
}

-- A command that runs on the present table.
now-Recorded :
    (s : System) (job : Job) (t : HashTable)
    → t ≡ s.table
    → (command_execute t job.command max_command_size s.world).0.result ≡ pos 0
    → Recorded s.table s.world
    → Recorded
        (command_execute t job.command max_command_size s.world).0.table
        (command_execute t job.command max_command_size s.world).1
now-Recorded s job t now good r =
    command-Recorded t s.world job.command max_command_size
      (subst (λ u. Recorded u s.world) (sym now) r) good

-- What a worker under a lock has before it.
before_it :
    {base : ℕ} (s : System) (i : ℕ) (a : Stage) → IsSound base s → stage s i ≡ a → Sees s.table a
before_it s i a sound at = subst (Sees s.table) at (Sees-get s.table s.workers i sound.seen)

Step-Recorded :
    {base : ℕ} {s t : System} (step : Step s t)
    → IsSound base s
    → IsSound base t
    → IsGood step
    → Recorded s.table s.world
    → Recorded t.table t.world
Step-Recorded {base} {s} {t} (submit fd command i inside signal accepted) was sound good r =
    kept s t sound r refl refl
Step-Recorded {base} {s} {t} (refuse refused) was sound good r = kept s t sound r refl refl
Step-Recorded {base} {s} {t} shut_down was sound good r = kept s t sound r refl refl
Step-Recorded (pick i job rest inside at there) was sound good r = r
Step-Recorded (sleep i inside at empty running) was sound good r = r
Step-Recorded (wake i inside at) was sound good r = r
Step-Recorded (leave i inside at empty shut) was sound good r = r
Step-Recorded (read_lock i job inside at reads_it free) was sound good r = r
Step-Recorded (write_lock i job inside at writes_it free no_reader) was sound good r = r
Step-Recorded {base} {s} (read i job t inside at) was sound good r =
    now-Recorded s job t (before_it s i (reading job t) was at).0 good r
Step-Recorded {base} {s} (write i job t inside at) was sound good r =
    now-Recorded s job t (before_it s i (writing job t) was at) good r
Step-Recorded {base} {s} {t} (finish i job result response notified inside at) was sound good r =
    kept s t sound r refl refl

-- Whatever the order of the steps of the workers and the server, where each command runs on the table
-- that was there when its lock was taken, and as long as all commands answer 0: if the
-- file records the table at the beginning, it records the table in every state, so that replaying the
-- changes that are in the file gives what the table says of each key.
pub Reach-Recorded :
    {table : HashTable} {world : World} {s : System} (r : Reach table world s)
    → AllGood r
    → Recorded table world
    → Recorded s.table s.world
Reach-Recorded start good recorded = recorded
Reach-Recorded (next before step) good recorded =
    Step-Recorded step (Reach-IsSound recorded.valid recorded.owns before)
      (Reach-IsSound recorded.valid recorded.owns (next before step)) good.1
      (Reach-Recorded before good.0 recorded)
