-- ===== src/HashTable/Destroy.antt =====
-- The blocks that `hash_table_destroy` gives back.
use mathlib.Core.List.{flatten}
use in_mem_db.Base.{List, [], ◌∷◌, ◌≡◌, ◌+◌, ◌*◌, ◌-◌, ◌∙◌, arith, length, ap, length-append}
use in_mem_db.World.{World, free}
use in_mem_db.Entry.{Entry, entry_destroy}
use in_mem_db.HashTable.{HashTable, destroy_chain, destroy_buckets, hash_table_destroy}
use in_mem_db.HashTable.Valid.{entries}

destroy_chain-live :
    (c : List Entry) (w : World) → (destroy_chain c w).1 ≡ record w { live = w.live - 3 * length c }
unfolding destroy_chain entry_destroy free
destroy_chain-live [] w = ground arith
destroy_chain-live (e ∷ c) w =
    destroy_chain-live c (record w { live = w.live - 1 - 1 - 1 }) ∙ ground arith

destroy_buckets-live :
    (bs : List (List Entry)) (w : World)
    → (destroy_buckets bs w).1 ≡ record w { live = w.live - 3 * length (flatten bs) }
unfolding destroy_buckets flatten
destroy_buckets-live [] w = ground arith
destroy_buckets-live (c ∷ bs) w =
    ap (λ (u : World). (destroy_buckets bs u).1) (destroy_chain-live c w)
    ∙ destroy_buckets-live bs (record w { live = w.live - 3 * length c })
    ∙ ground (arith, length-append c (flatten bs))

-- Destroying a table gives back three blocks for each entry and the two of the table, and does
-- nothing else.
pub hash_table_destroy-live :
    (t : HashTable) (w : World)
    → (hash_table_destroy t w).1 ≡ record w { live = w.live - (3 * entries t + 2) }
unfolding hash_table_destroy free
hash_table_destroy-live t w = rw destroy_buckets-live (ground arith)
