-- ===== src/Command/ReadOnly.antt =====
-- GET and TTL of src/command.c, which run under the read lock.
use in_mem_db.Base.{Bytes, List, [], ◌∷◌, ℕ, ◌≡◌, arith}
use in_mem_db.World.{World, time}
use in_mem_db.Entry.{entry_is_expired}
use in_mem_db.HashTable.{HashTable}
use in_mem_db.Command.{Executed, execute_get, execute_ttl}

-- Only the clock has been read: the table, the heap, the files are as they were.
pub record Untouched (t : HashTable) (w : World) (r : Executed × World) : Type 0 where
  pub table : r.0.table ≡ t
  pub heap : r.1.heap ≡ w.heap
  pub live : r.1.live ≡ w.live
  pub io : r.1.io ≡ w.io
  pub aof : r.1.aof ≡ w.aof
  pub tmp : r.1.tmp ≡ w.tmp

module _ (size : ℕ) (t : HashTable) (w : World) where
  pub execute_get-Untouched : (argv : List Bytes) → Untouched t w (execute_get size t argv w)
  unfolding execute_get entry_is_expired time
  execute_get-Untouched [] = ground arith
  execute_get-Untouched (k ∷ []) = ground arith
  execute_get-Untouched (k ∷ x ∷ more) = ground arith

  pub execute_ttl-Untouched : (argv : List Bytes) → Untouched t w (execute_ttl size t argv w)
  unfolding execute_ttl entry_is_expired time
  execute_ttl-Untouched [] = ground arith
  execute_ttl-Untouched (k ∷ []) = ground arith
  execute_ttl-Untouched (k ∷ x ∷ more) = ground arith
