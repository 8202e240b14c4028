-- ===== src/Examples/Files.antt =====
-- The theorems on src/persistence.c at concrete inputs.
use in_mem_db.Base.{Bytes, pos, codes, some, refl, ◌≡◌, arith, true, ◌⊎◌, false, Bool, ◌+◌, ◌*◌}
use in_mem_db.HashTable.Valid.{fresh, fresh-IsValid, lookup}
use in_mem_db.HashTable.Set.{stored}
use in_mem_db.HashTable.Reads.{visible}
use in_mem_db.Command.Tests.{calm}
use in_mem_db.Persistence.Load.{persistence_load-replay, persistence_load-expired_put}
use in_mem_db.Persistence.Log.{log_text, replay, current}
use in_mem_db.Persistence.Replay.{Loads}
use in_mem_db.Persistence.Append.{Appended, append_line-Appended}
use in_mem_db.Persistence.{set_line, del_line, append_line, persistence_load, persistence_rewrite}
use in_mem_db.Command.Served.{Recorded-load}
use in_mem_db.Persistence.Fuel.{load_lines-fuel}
use in_mem_db.Persistence.{load_lines}
use in_mem_db.Persistence.Owned.{persistence_load-IsOwned}
use in_mem_db.HashTable.Valid.{IsValid, entries}
use in_mem_db.Command.Tests.{run}
use mathlib.Core.List.{flatten}
use in_mem_db.Persistence.Rewrite.{puts, persistence_rewrite-puts}
use in_mem_db.Persistence.Restart.{persistence_rewrite-load}
use in_mem_db.Examples.{
  table, world, made, fresh-owns, changes, restarted, stale, restarted_later, rewritten, writable,
  short_40, short_50, one_line, recorded, HashTable, World,
}

append_line-Appended_example :
    Appended (del_line (codes "a")) world (append_line (del_line (codes "a")) world)
append_line-Appended_example = append_line-Appended (del_line (codes "a")) world

persistence_load-replay_example :
    Loads
      (fresh 2)
      restarted
      (replay (current (pos 1000) changes) (lookup (fresh 2)))
      (persistence_load (fresh 2) restarted)
persistence_load-replay_example =
    persistence_load-replay (pos 1000) changes (fresh 2) restarted (fresh-IsValid 2 (omega arith))
      (record { grants = λ n. refl; clock = λ n. refl; owns = fresh-owns }) (omega arith) refl refl

persistence_load-expired_put_example :
    ((persistence_load (fresh 2) stale).0.0 ≡ true)
    × (lookup (persistence_load (fresh 2) stale).0.1 (codes "a")
        ≡ some (stored (codes "a") (codes "1") (pos 0)))
persistence_load-expired_put_example =
    persistence_load-expired_put (fresh 2) stale (codes "a") (codes "1") (codes "2") 900 1000
      (omega arith) (omega arith) (fresh-IsValid 2 (omega arith))
      (record { grants = λ n. refl; clock = λ n. refl; owns = fresh-owns }) (omega arith)
      (omega arith) refl refl

persistence_rewrite-puts_example :
    (((persistence_rewrite table calm).0 ≡ true)
      × ((persistence_rewrite table calm).1.aof
          ≡ some (log_text (puts (pos 1000) (flatten table.buckets)))))
    ⊎ (((persistence_rewrite table calm).0 ≡ false)
        × ((persistence_rewrite table calm).1.aof ≡ calm.aof))
persistence_rewrite-puts_example = persistence_rewrite-puts (pos 1000) table calm (λ n. refl)

persistence_rewrite-load_example :
    ((persistence_load (fresh 2) restarted_later).0.0 ≡ true)
    × ((q : Bytes)
        → visible (pos 1010) (lookup (persistence_load (fresh 2) restarted_later).0.1 q)
          ≡ visible (pos 1010) (lookup table q))
persistence_rewrite-load_example =
    persistence_rewrite-load (pos 1000) (pos 1010) table calm restarted_later 2 refl made.valid
      (λ n. refl) writable rewritten (omega arith)
      (record { grants = λ n. refl; clock = λ n. refl; owns = fresh-owns }) refl refl

load_lines-fuel_example :
    (r : Bool × HashTable) × (w' : World) × (load_lines 40
        (fresh 2)
        (set_line (codes "a") (codes "1") (pos 0))
        calm
      ≡ (some r, w'))
    × (load_lines 50 (fresh 2) (set_line (codes "a") (codes "1") (pos 0)) calm ≡ (some r, w'))
load_lines-fuel_example =
    load_lines-fuel 40 50 (fresh 2) (set_line (codes "a") (codes "1") (pos 0)) calm short_40
      short_50

Recorded-load_example :
    ((persistence_load (fresh 2) (record calm { aof = one_line.aof })).0.0 ≡ true)
    × ((q : Bytes)
        → lookup (persistence_load (fresh 2) (record calm { aof = one_line.aof })).0.1 q
          ≡ lookup table q)
Recorded-load_example =
    Recorded-load table one_line recorded (pos 1000) 2 (record calm { aof = one_line.aof })
      (omega arith) (refl, tt) (omega arith)
      (record { grants = λ n. refl; clock = λ n. refl; owns = fresh-owns }) refl refl

restarted-inside : (persistence_load (fresh 2) restarted).1.overrun ≡ false
unfolding run
restarted-inside = refl

persistence_load-IsOwned_example :
    IsValid (persistence_load (fresh 2) restarted).0.1
    × ((persistence_load (fresh 2) restarted).1.live + 3 * entries (fresh 2)
        ≡ restarted.live + 3 * entries (persistence_load (fresh 2) restarted).0.1)
persistence_load-IsOwned_example =
    persistence_load-IsOwned (fresh 2) restarted (fresh-IsValid 2 (omega arith)) fresh-owns
      restarted-inside
