-- ===== src/WorkerPool/System/Invariant.antt =====
-- What holds of the workers, the lock, the queue and the table in every state.
use in_mem_db.Base.{
  ℕ, ◌*◌, ◌≤◌, ◌<◌, true, false, [], ◌∷◌, ◌++◌, ◌≡◌, inl, inr, ◌∙◌, ap, sym, refl, arith, length,
  length-append, append_assoc, set, ◌-◌, All, subst,
}
use in_mem_db.World.{World}
use in_mem_db.HashTable.{HashTable}
use in_mem_db.HashTable.Valid.{IsValid, entries}
use in_mem_db.WorkerPool.Queue.{max_command_size}
use in_mem_db.WorkerPool.System.{
  Stage, waiting, picked, reading, writing, answered, stopped, System, worker_count, stage, job_of,
  Step, submit, refuse, shut_down, pick, leave, read_lock, write_lock, read, write, finish, Reach,
  start, next, command_execute, woken, sleep, asleep, wake,
}
use in_mem_db.WorkerPool.ReadLock.{is_read_command-Untouched}
use in_mem_db.WorkerPool.System.Seen.{
  Sees, Sees-set, Sees-get, Sees-woken, Sees-broadcast, Sees-outside,
}
use in_mem_db.WorkerPool.System.Totals.{
  reads, writes, busy, stops, sleeps, sleeps-woken, weight-woken, signals-sleeps, sleeps-length,
  sleeps-broadcast, total-broadcast, length-broadcast,
}
use in_mem_db.WorkerPool.System.Sound.{IsSound, initial-IsSound, Moved, moved, executed, advance}

-- What a signal does to the counts.
signalled :
    (base : ℕ) (s : System) (n : ℕ)
    → IsSound base s
    → n < worker_count
    → Moved s.workers (stage s n) (woken (stage s n)) (set s.workers n (woken (stage s n)))
signalled base s n i inside = moved base s n (stage s n) (woken (stage s n)) i inside refl

Step-IsSound : {base : ℕ} {s t : System} → Step s t → IsSound base s → IsSound base t
Step-IsSound {base} {s} (submit fd command n inside signal accepted) i =
    let running : s.shutting_down ≡ false = ground arith in
    let m = signalled base s n i inside in
    let a = stage s n in
    let woke : sleeps (woken a) ≡ 0 = sleeps-woken a in
    record {
      valid = i.valid;
      owns = omega (
        arith,
        i.owns,
        m.busy,
        weight-woken busy a refl,
        length-append {0} s.queue (job_of fd command ∷ []),
      );
      width = m.width ∙ i.width;
      readers = omega (arith, i.readers, m.reads, weight-woken reads a refl);
      writers = i.writers ∙ omega (arith, m.writes, weight-woken writes a refl);
      exclusive = i.exclusive;
      order =
          sym (append_assoc s.taken s.queue (job_of fd command ∷ []))
          ∙ ap (λ q. q ++ job_of fd command ∷ []) i.order;
      seen =
          Sees-set s.table s.workers n (woken a) i.seen
            (Sees-woken s.table a (Sees-get s.table s.workers n i.seen));
      attended = inr (elim (signals-sleeps s.workers a signal) [
        | inl slept ↦ omega (arith, m.sleeps, woke, slept, i.width, sleeps-length s.workers)
        | inr none_sleeps ↦ omega (arith, m.sleeps, woke, none_sleeps)
      ]);
      awake = inl running;
      ended = elim i.ended [
        | inl none_yet ↦ inl (omega (arith, m.stops, weight-woken stops a refl))
        | inr (shut, empty) ↦ absurd (cc)
      ];
    }
Step-IsSound (refuse refused) i = record {
  valid = i.valid;
  owns = i.owns;
  width = i.width;
  readers = i.readers;
  writers = i.writers;
  exclusive = i.exclusive;
  order = i.order;
  seen = i.seen;
  attended = i.attended;
  awake = i.awake;
  ended = i.ended;
}
Step-IsSound {base} {s} shut_down i =
    let none_sleeps = sleeps-broadcast s.workers in
    record {
      valid = i.valid;
      owns = omega (arith, i.owns, total-broadcast busy s.workers refl);
      width = length-broadcast s.workers ∙ i.width;
      readers = omega (arith, i.readers, total-broadcast reads s.workers refl);
      writers = i.writers ∙ omega (arith, total-broadcast writes s.workers refl);
      exclusive = i.exclusive;
      order = i.order;
      seen = Sees-broadcast s.table s.workers i.seen;
      attended = inr (omega (arith, none_sleeps));
      awake = inr none_sleeps;
      ended = elim i.ended [
        | inl none_yet ↦ inl (omega (arith, none_yet, total-broadcast stops s.workers refl))
        | inr (shut, empty) ↦ inr (refl, empty)
      ];
    }
Step-IsSound {base} {s} (sleep n inside at empty running) i =
    let m = moved base s n waiting asleep i inside at in
    record {
      valid = i.valid;
      owns = omega (arith, i.owns, m.busy);
      width = m.width ∙ i.width;
      readers = omega (arith, i.readers, m.reads);
      writers = i.writers ∙ omega (arith, m.writes);
      exclusive = i.exclusive;
      order = i.order;
      seen = Sees-set s.table s.workers n asleep i.seen tt;
      attended = inl empty;
      awake = inl running;
      ended = elim i.ended [
        | inl none_yet ↦ inl (omega (arith, m.stops))
        | inr (shut, _) ↦ absurd (cc)
      ];
    }
Step-IsSound {base} {s} (wake n inside at) i =
    let m = moved base s n asleep waiting i inside at in
    advance s asleep waiting i m s.world i.valid refl refl refl refl refl
      (Sees-set s.table s.workers n waiting i.seen tt) refl i.exclusive
Step-IsSound {base} {s} (pick n job rest inside at there) i =
    let m = moved base s n waiting (picked job) i inside at in
    record {
      valid = i.valid;
      owns = omega (arith, i.owns, m.busy, ap length there);
      width = m.width ∙ i.width;
      readers = omega (arith, i.readers, m.reads);
      writers = i.writers ∙ omega (arith, m.writes);
      exclusive = i.exclusive;
      order = append_assoc s.taken (job ∷ []) rest ∙ ap (λ q. s.taken ++ q) (sym there) ∙ i.order;
      seen = Sees-set s.table s.workers n (picked job) i.seen tt;
      attended = elim i.attended [
        | inl empty ↦ absurd (cc)
        | inr some_awake ↦ inr (omega (arith, m.sleeps))
      ];
      awake = elim i.awake [
        | inl running ↦ inl running
        | inr none_sleeps ↦ inr (omega (arith, m.sleeps))
      ];
      ended = elim i.ended [
        | inl none_yet ↦ inl (omega (arith, m.stops))
        | inr (shut, empty) ↦ absurd (cc)
      ];
    }
Step-IsSound {base} {s} (leave n inside at empty shut) i =
    let m = moved base s n waiting stopped i inside at in
    record {
      valid = i.valid;
      owns = omega (arith, i.owns, m.busy);
      width = m.width ∙ i.width;
      readers = omega (arith, i.readers, m.reads);
      writers = i.writers ∙ omega (arith, m.writes);
      exclusive = i.exclusive;
      order = i.order;
      seen = Sees-set s.table s.workers n stopped i.seen tt;
      attended = inl empty;
      awake = elim i.awake [
        | inl running ↦ inl running
        | inr none_sleeps ↦ inr (omega (arith, m.sleeps))
      ];
      ended = inr (shut, empty);
    }
Step-IsSound {base} {s} (read_lock n job inside at reads_it free) i =
    let m = moved base s n (picked job) (reading job s.table) i inside at in
    advance s (picked job) (reading job s.table) i m s.world i.valid refl (omega arith) refl refl
      refl (Sees-set s.table s.workers n (reading job s.table) i.seen (refl, reads_it)) refl
      (inl free)
Step-IsSound {base} {s} (write_lock n job inside at writes_it free no_reader) i =
    let m = moved base s n (picked job) (writing job s.table) i inside at in
    advance s (picked job) (writing job s.table) i m s.world i.valid refl refl refl refl refl
      (Sees-set s.table s.workers n (writing job s.table) i.seen refl) (ground (arith, free))
      (inr no_reader)
Step-IsSound {base} {s} (read n job t inside at) i =
    let r = command_execute t job.command max_command_size s.world in
    let new : Stage = answered job r.0.result r.0.response in
    let m = moved base s n (reading job t) new i inside at in
    let (now, reads_it) : Sees s.table (reading job t) =
      subst (Sees s.table) at (Sees-get s.table s.workers n i.seen) in
    let same : r.0.table ≡ s.table =
      (is_read_command-Untouched max_command_size t s.world job.command reads_it).table ∙ now in
    let (valid, owned) = executed s job t now i in
    advance s (reading job t) new i m r.1 valid (omega (arith, owned))
      (omega (arith, i.readers, m.reads)) refl refl refl
      (subst (λ u. All (Sees u) (set s.workers n new)) (sym same)
        (Sees-set s.table s.workers n new i.seen tt))
      refl (elim i.exclusive [ inl free ↦ inl free | inr none_reads ↦ inr (omega arith) ])
Step-IsSound {base} {s} (write n job t inside at) i =
    let r = command_execute t job.command max_command_size s.world in
    let new : Stage = answered job r.0.result r.0.response in
    let m = moved base s n (writing job t) new i inside at in
    let now : t ≡ s.table = subst (Sees s.table) at (Sees-get s.table s.workers n i.seen) in
    let (valid, owned) = executed s job t now i in
    let held : s.writer ≡ true = ground (arith, i.writers, m.writes) in
    let none_reads : s.readers ≡ 0 = elim i.exclusive [
      | inl free ↦ absurd (cc)
      | inr none_reads ↦ none_reads
    ] in
    advance s (writing job t) new i m r.1 valid (omega (arith, owned)) refl refl refl refl
      (Sees-outside r.0.table (set s.workers n new) (omega (arith, i.readers, m.reads, none_reads))
        (ground (arith, i.writers, m.writes, held)))
      (ground (arith, i.writers, m.writes)) (inl refl)
Step-IsSound {base} {s} (finish n job result response notified inside at) i =
    let m = moved base s n (answered job result response) waiting i inside at in
    advance s (answered job result response) waiting i m
      (record s.world { live = s.world.live - 1 }) i.valid (omega (arith, i.owns, m.busy)) refl refl
      refl refl (Sees-set s.table s.workers n waiting i.seen tt) refl i.exclusive

-- In every state that the pool reaches from a valid table whose blocks are allocated, in any order of
-- the steps of the workers and the server: the table is valid; the blocks that are
-- allocated are its own, one for each task that is queued or picked, and those that were there before
-- beside the table; the lock has as many readers and writers as there are workers
-- inside, and never a writer with another holder, and each of them works on the present table, a reader
-- for a command that `is_read_command` accepts; the tasks taken, followed by those queued, are the
-- tasks submitted, in order; the workers are not all asleep on the condition variable beside a queued
-- task, and none is asleep once the pool shuts down; and once a worker has stopped, the pool shuts
-- down and the queue is empty.
pub Reach-IsSound :
    {table : HashTable} {world : World} {s : System}
    → IsValid table
    → 3 * entries table ≤ world.live
    → Reach table world s
    → IsSound (world.live - 3 * entries table) s
Reach-IsSound {table} {world} valid owns start = initial-IsSound table world valid owns
Reach-IsSound valid owns (next before step) = Step-IsSound step (Reach-IsSound valid owns before)
