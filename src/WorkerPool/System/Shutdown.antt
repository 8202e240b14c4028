-- ===== src/WorkerPool/System/Shutdown.antt =====
-- The end of the shutdown of the pool of src/worker_pool.c.
use in_mem_db.Base.{
  ℕ, zero, suc, ◌+◌, ◌*◌, ◌≤◌, ◌<◌, true, [], ◌++◌, ◌≡◌, ◌⊎◌, inl, inr, ◌∙◌, ap, sym, refl, arith,
  length, append-nil, set,
}
use in_mem_db.World.{World}
use in_mem_db.HashTable.{HashTable}
use in_mem_db.HashTable.Valid.{IsValid, entries}
use in_mem_db.WorkerPool.System.{
  Stage, waiting, picked, reading, writing, answered, stopped, System, worker_count, stage, Step,
  submit, refuse, shut_down, pick, leave, read_lock, write_lock, read, write, finish, Reach, next,
  sleep, wake,
}
use in_mem_db.WorkerPool.System.Totals.{stops, total, total-set, broadcast-awake, sleeps, weight-≤}
use in_mem_db.WorkerPool.System.Sound.{IsSound}
use in_mem_db.WorkerPool.System.Invariant.{Reach-IsSound}
use in_mem_db.WorkerPool.System.Progress.{rank, work, shutdown_progress}

-- What a step does to a pool that shuts down: it still does, no task comes, and the work that is left is
-- one step less, or the step was not one of a worker.
pub record Closes (s t : System) : Type 0 where
  pub shut : t.shutting_down ≡ true
  pub submitted : t.submitted ≡ s.submitted
  pub less : (work t + 1 ≡ work s) ⊎ ((t.workers ≡ s.workers) × (t.queue ≡ s.queue))

ranked :
    {base : ℕ} (s : System) (i : ℕ) (old new : Stage)
    → IsSound base s
    → i < worker_count
    → stage s i ≡ old
    → total rank (set s.workers i new) + rank old ≡ total rank s.workers + rank new
ranked s i old new sound inside at =
    total-set rank s.workers i old new (omega (arith, sound.width)) at

Step-Closes :
    {base : ℕ} {s t : System} → IsSound base s → s.shutting_down ≡ true → Step s t → Closes s t
Step-Closes {base} {s} sound shut (submit fd command i inside signal accepted) =
    absurd (ground (arith, shut, accepted))
Step-Closes {base} {s} sound shut (refuse refused) = record {
  shut = shut;
  submitted = refl;
  less = inr (refl, refl);
}
Step-Closes {base} {s} sound shut shut_down = record {
  shut = refl;
  submitted = refl;
  less = elim sound.awake [
    | inl running ↦ absurd (cc)
    | inr none_sleeps ↦ inr (broadcast-awake s.workers none_sleeps, refl)
  ];
}
Step-Closes {base} {s} sound shut (sleep i inside at empty running) = absurd (cc)
Step-Closes {base} {s} sound shut (wake i inside at) =
    let one : sleeps (stage s i) ≡ 1 = rw at in
    let counted = weight-≤ sleeps s.workers i (omega (arith, sound.width)) in
    elim sound.awake [ inl running ↦ absurd (cc) | inr none_sleeps ↦ absurd (omega arith) ]
Step-Closes {base} {s} sound shut (pick i job rest inside at there) = record {
  shut = shut;
  submitted = refl;
  less = inl (omega (arith, ranked s i waiting (picked job) sound inside at, ap length there));
}
Step-Closes {base} {s} sound shut (leave i inside at empty flag) = record {
  shut = shut;
  submitted = refl;
  less = inl (omega (arith, ranked s i waiting stopped sound inside at));
}
Step-Closes {base} {s} sound shut (read_lock i job inside at reads_it free) = record {
  shut = shut;
  submitted = refl;
  less = inl (omega (arith, ranked s i (picked job) (reading job s.table) sound inside at));
}
Step-Closes {base} {s} sound shut (write_lock i job inside at writes_it free no_reader) = record {
  shut = shut;
  submitted = refl;
  less = inl (omega (arith, ranked s i (picked job) (writing job s.table) sound inside at));
}
Step-Closes {base} {s} sound shut (read i job t inside at) = record {
  shut = shut;
  submitted = refl;
  less = inl (omega (arith, ranked s i (reading job t) (answered job _ _) sound inside at));
}
Step-Closes {base} {s} sound shut (write i job t inside at) = record {
  shut = shut;
  submitted = refl;
  less = inl (omega (arith, ranked s i (writing job t) (answered job _ _) sound inside at));
}
Step-Closes {base} {s} sound shut (finish i job result response notified inside at) = record {
  shut = shut;
  submitted = refl;
  less = inl (omega (arith, ranked s i (answered job result response) waiting sound inside at));
}

-- Steps, one after the other.
pub data Run : System → System → Type 0 where
  here : {s : System} → Run s s
  more : {s t u : System} → Step s t → Run t u → Run s u

-- A run from `s` to a state in which the pool has stopped and every task that was submitted has been taken.
abbrev pub Stops : System → Type 0
Stops s =
    (t : System) × Run s t
    × (total stops t.workers ≡ worker_count)
    × (t.queue ≡ [])
    × (t.taken ≡ s.submitted)

module _ {table : HashTable} {world : World} (valid : IsValid table)
    (owns : 3 * entries table ≤ world.live) where
  shutdown_run :
      (n : ℕ) (s : System) → Reach table world s → s.shutting_down ≡ true → work s < n → Stops s
  shutdown_run zero s r shut enough = absurd (omega arith)
  shutdown_run (suc n) s r shut enough =
      let sound = Reach-IsSound valid owns r in
      elim (shutdown_progress valid owns r shut) [
        | inl (stopped_all, empty) ↦ (
          s,
          here,
          stopped_all,
          empty,
          sym (append-nil s.taken) ∙ ap (λ q. s.taken ++ q) (sym empty) ∙ sound.order,
        )
        | inr (t, step, less) ↦
            let closes = Step-Closes sound shut step in
            let (u, run, stopped_all, empty, all_taken) =
              shutdown_run n t (next r step) closes.shut (omega (arith, less, enough)) in
            (u, more step run, stopped_all, empty, all_taken ∙ closes.submitted)
      ]

  -- Shutdown ends under any schedule. In a state that the pool reaches from a valid table whose blocks
  -- are allocated, and in which it shuts down, whatever step comes next: the pool still shuts down, no
  -- task is added, and the work that is left is one step less, unless the step was not a worker's and
  -- left the workers and the queue alone; and from there steps lead on to a state in which all workers
  -- have stopped, the queue is empty and every task that was submitted has been taken, in order.
  pub shutdown_ends :
      {s t : System}
      → Reach table world s
      → s.shutting_down ≡ true
      → Step s t
      → Closes s t × Stops t
  shutdown_ends {s} {t} r shut step =
      let closes = Step-Closes (Reach-IsSound valid owns r) shut step in
      (closes, shutdown_run (suc (work t)) t (next r step) closes.shut (omega arith))
