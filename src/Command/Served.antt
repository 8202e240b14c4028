-- ===== src/Command/Served.antt =====
-- Sequences of commands of src/command.c on a table that began empty with an empty file.
use in_mem_db.Base.{
  Bytes, List, [], ◌++◌, ◌*◌, ◌≤◌, ◌<◌, ℕ, ℤ, pos, ◌≡◌, ◌∙◌, ap, sym, none, arith, inl, inr, All,
  false, true, some,
}
use mathlib.Core.Path.{fun_ext}
use in_mem_db.World.{World}
use in_mem_db.HashTable.{HashTable}
use in_mem_db.HashTable.Valid.{IsValid, entries, lookup, fresh, fresh-IsValid, lookup-fresh}
use in_mem_db.Persistence.{contents, persistence_load}
use in_mem_db.Persistence.Load.{persistence_load-replay}
use in_mem_db.Persistence.Replay.{IsCalm}
use in_mem_db.Persistence.Log.{
  Change, log_text, replay, log_text-append, replay-append, IsWritable, passed_over, current-All,
}
use in_mem_db.Command.Contract.{command_execute-Journals}
use in_mem_db.Command.{command_execute}

-- The states that a server can reach from an empty table and an empty file by commands that answer
-- without an error, whatever the lines, the buffer sizes and the answers of the world.
pub data Served : HashTable → World → Type 0 where
  started : (n : ℕ) (w : World) → 0 < n → contents w.aof ≡ [] → Served (fresh n) w
  ran :
      {t : HashTable} {w : World} (line : Bytes) (size : ℕ)
      → Served t w
      → (command_execute t line size w).0.result ≡ pos 0
      → Served (command_execute t line size w).0.table (command_execute t line size w).1

-- The file is the text of changes, and the table is what they make of an empty one.
pub record Recorded (t : HashTable) (w : World) : Type 0 where
  pub valid : IsValid t
  pub owns : 3 * entries t ≤ w.live
  pub changes : List Change
  pub text : contents w.aof ≡ log_text changes
  pub reads : (q : Bytes) → lookup t q ≡ replay changes (λ _. none) q

-- A command that answers without an error leaves the table recorded.
pub command-Recorded :
    (t : HashTable) (w : World) (line : Bytes) (size : ℕ)
    → Recorded t w
    → (command_execute t line size w).0.result ≡ pos 0
    → Recorded (command_execute t line size w).0.table (command_execute t line size w).1
command-Recorded t w line size p good =
    let j = command_execute-Journals t line size w p.valid p.owns (λ exit. cc) in
    record {
      valid = j.valid;
      owns = omega (arith, j.owned, p.owns);
      changes = p.changes ++ j.changes;
      text = elim j.outcome [
        | inl (fine, file) ↦
            file
            ∙ ap (λ s. s ++ log_text j.changes) p.text
            ∙ sym (log_text-append p.changes j.changes)
        | inr (bad, same) ↦ absurd (cc)
      ];
      reads = λ q.
          j.reads q
          ∙ ap (λ f. replay j.changes f q) (fun_ext p.reads)
          ∙ ap (λ g. g q) (sym (replay-append p.changes j.changes (λ _. none)));
    }

-- A table that is recorded by the file, with changes of C strings and 64-bit deadlines none of which
-- has passed at the time `now`: loading that file at that time into a new table, under a heap that
-- grants every block, succeeds and gives each key the entry that it had.
pub Recorded-load :
    (t : HashTable) (w : World) (r : Recorded t w) (now : ℤ) (n : ℕ) (w' : World)
    → All IsWritable r.changes
    → All (λ c. passed_over now c ≡ false) r.changes
    → 0 < n
    → IsCalm now (fresh n) w'
    → w'.io 0 ≡ true
    → w'.aof ≡ some (contents w.aof)
    → ((persistence_load (fresh n) w').0.0 ≡ true)
      × ((q : Bytes) → lookup (persistence_load (fresh n) w').0.1 q ≡ lookup t q)
Recorded-load t w r now n w' writable ahead_of some_bucket calm opened file =
    let l =
      persistence_load-replay now r.changes (fresh n) w' (fresh-IsValid n some_bucket) calm writable
        opened (file ∙ ap (λ (s : Bytes). some s) r.text) in
    (
      l.done,
      λ q.
          l.reads q
          ∙ ap (λ cs. replay cs (lookup (fresh n)) q) (current-All now r.changes ahead_of)
          ∙ ap (λ f. replay r.changes f q) (fun_ext (lookup-fresh n))
          ∙ sym (r.reads q),
    )
