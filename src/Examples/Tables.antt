-- ===== src/Examples/Tables.antt =====
-- The theorems on src/hash_table.c at concrete inputs.
use in_mem_db.Base.{
  Bytes, pos, codes, some, none, refl, ◌≡◌, arith, true, ◌*◌, ◌-◌, ◌+◌, ◌⊎◌, ◌&&◌, false,
}
use in_mem_db.HashTable.{
  hash_table_create, hash_table_set_with_expiry, hash_table_delete, hash_table_destroy,
  hash_table_get, hash_table_ttl, hash_table_resize,
}
use in_mem_db.HashTable.Valid.{
  IsValid, fresh, lookup, Resized, hash_table_resize-Resized, hash_table_create-IsValid, entries,
}
use in_mem_db.HashTable.Set.{
  SetResult, hash_table_set_with_expiry-SetResult, hash_table_set_with_expiry-succeeds,
}
use in_mem_db.HashTable.Delete.{DeleteResult, hash_table_delete-DeleteResult}
use in_mem_db.HashTable.Reads.{ttl_get_agree}
use in_mem_db.HashTable.Destroy.{hash_table_destroy-live}
use in_mem_db.Command.Tests.{calm}
use in_mem_db.Examples.{table, world, made, entry, table-lookup, table-owns}

hash_table_set_with_expiry-SetResult_example :
    SetResult table
      (codes "b")
      (codes "2")
      (pos 0)
      world
      (hash_table_set_with_expiry table (codes "b") (codes "2") (pos 0) world)
hash_table_set_with_expiry-SetResult_example =
    hash_table_set_with_expiry-SetResult table (codes "b") (codes "2") (pos 0) world made.valid

hash_table_set_with_expiry-succeeds_example :
    (hash_table_set_with_expiry table (codes "b") (codes "2") (pos 0) calm).0.0 ≡ true
hash_table_set_with_expiry-succeeds_example =
    hash_table_set_with_expiry-succeeds table (codes "b") (codes "2") (pos 0) calm refl refl refl

hash_table_delete-DeleteResult_example :
    DeleteResult table (codes "a") world (hash_table_delete table (codes "a") world)
hash_table_delete-DeleteResult_example =
    hash_table_delete-DeleteResult table (codes "a") world made.valid table-owns

hash_table_resize-Resized_example : Resized table 16 calm (hash_table_resize table 16 calm)
hash_table_resize-Resized_example = hash_table_resize-Resized table 16 calm made.valid

ttl_get_agree_example :
    ((hash_table_ttl table (codes "a") calm).0 ≡ pos 30)
    × ((hash_table_get table (codes "a") calm).0 ≡ some (codes "1"))
ttl_get_agree_example =
    ttl_get_agree table (codes "a") calm 1000 1030 entry refl table-lookup refl (omega arith)

hash_table_destroy-live_example :
    (hash_table_destroy table world).1
    ≡ record world { live = world.live - (3 * entries table + 2) }
hash_table_destroy-live_example = hash_table_destroy-live table world

hash_table_create-IsValid_example :
    (((hash_table_create 8 calm).0 ≡ some (fresh 8))
      × IsValid (fresh 8)
      × ((q : Bytes) → lookup (fresh 8) q ≡ none)
      × ((hash_table_create 8 calm).1.live ≡ calm.live + 2))
    ⊎ ((calm.heap 0 && calm.heap 1 ≡ false)
        × ((hash_table_create 8 calm).0 ≡ none)
        × ((hash_table_create 8 calm).1.live ≡ calm.live))
hash_table_create-IsValid_example = hash_table_create-IsValid 8 calm (omega arith)
