-- ===== src/Examples/Entries.antt =====
-- The theorems on src/entry.c at concrete inputs.
use in_mem_db.Base.{pos, codes, some, none, ◌+◌, ◌≡◌, ◌⊎◌, ◌&&◌, false, leb, arith, refl}
use in_mem_db.Entry.{entry_create, entry_set_expiry, entry_is_expired}
use in_mem_db.Entry.Life.{entry_create-owned, entry_set_expiry-entry_is_expired}
use in_mem_db.Command.Tests.{calm}
use in_mem_db.Examples.{entry}

entry_create-owned_example :
    (((entry_create (codes "a") (codes "1") calm).0
        ≡ some (record { key = codes "a"; value = codes "1"; expires_at = pos 0 }))
      × ((entry_create (codes "a") (codes "1") calm).1.live ≡ calm.live + 3))
    ⊎ ((calm.heap 0 && (calm.heap 1 && calm.heap 2) ≡ false)
        × ((entry_create (codes "a") (codes "1") calm).0 ≡ none)
        × ((entry_create (codes "a") (codes "1") calm).1.live ≡ calm.live))
entry_create-owned_example = entry_create-owned (codes "a") (codes "1") calm

entry_set_expiry-entry_is_expired_example :
    (entry_is_expired
      (entry_set_expiry entry (pos 5) calm).0
      (record calm { clock = λ n. pos 1004 })).0
    ≡ leb (1000 + 5) 1004
entry_set_expiry-entry_is_expired_example =
    entry_set_expiry-entry_is_expired entry 5 1000 1004 calm (record calm { clock = λ n. pos 1004 })
      (omega arith) (omega arith) refl refl
