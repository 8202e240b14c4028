-- ===== src/Persistence/Owned.antt =====
-- The table and its blocks when src/persistence.c loads a file of any content.
use in_mem_db.Persistence.Fuel.{Loaded-cases, load_lines-fuel}
use in_mem_db.World.{if-either}
use in_mem_db.Base.{
  subst, Bytes, ℕ, zero, suc, ◌+◌, ◌*◌, ◌≤◌, ◌≡◌, ◌⊎◌, inl, inr, length, none, some, Option-cases,
  Bool-cases, arith, ℤ, str_eq, codes, ◌==◌, c_string, if◌then◌else◌, Option, Bool, false,
}
use in_mem_db.World.{World, ◌>>=◌, malloc, free, store, time, io_call, if-either}
use in_mem_db.Entry.{Entry, entry_is_expired}
use in_mem_db.HashTable.{HashTable, hash_table_set_with_expiry}
use in_mem_db.HashTable.Valid.{IsValid, entries}
use in_mem_db.HashTable.Set.{hash_table_set_with_expiry-SetResult, stored}
use in_mem_db.HashTable.Delete.{hash_table_delete-DeleteResult}
use in_mem_db.Stdio.{scan_size, scan_word, expect, fread}
use in_mem_db.Persistence.{
  Loaded, stopped, next, read_string, read_expiry, restore, load_set, load_del, load_line,
  load_lines, fopen_read, persistence_load,
}

abbrev pub table_in : Loaded → HashTable
table_in (stopped t) = t
table_in (next t file) = t

-- From `t` and `w` on a valid table is reached, and the live blocks are those of its entries more, or fewer,
-- and `extra` blocks fewer.
pub record IsOwned (extra : ℕ) (t : HashTable) (w : World) (t' : HashTable) (w' : World)
    : Type 0 where
  pub valid : IsValid t'
  pub owned : w'.live + extra + 3 * entries t ≡ w.live + 3 * entries t'

read_string-live :
    (file : Bytes) (w : World)
    → (((read_string file w).0 ≡ none) × ((read_string file w).1.live ≡ w.live))
      ⊎ ((key : Bytes) × (rest : Bytes) × ((read_string file w).0 ≡ some (key, rest))
          × ((read_string file w).1.live ≡ w.live + 1))
unfolding read_string malloc free store
read_string-live file w = elim (Option-cases (scan_size file)) [
  | inl h ↦ inl (rw (h, read_string), rw (h, read_string))
  | inr ((n, after), h) ↦ elim (Option-cases (expect b':' after)) [
    | inl e ↦ inl (rw (h, e, read_string), rw (h, e, read_string))
    | inr (rest, e) ↦ elim (Bool-cases (w.heap 0)) [
      | inr denied ↦ inl (rw (h, e, denied, read_string), rw (h, e, denied, read_string))
      | inl granted ↦ elim (Bool-cases (length (fread n rest).0 == n)) [
        | inl whole ↦ inr (
          c_string (fread n rest).0,
          (fread n rest).1,
          rw (h, e, granted, whole, read_string),
          rw (h, e, granted, whole, read_string),
        )
        | inr short ↦ inl (
          rw (h, e, granted, short, read_string),
          rw (h, e, granted, short, read_string) (omega arith),
        )
      ]
    ]
  ]
]

entry_is_expired-live : (e : Entry) (w : World) → (entry_is_expired e w).1.live ≡ w.live
unfolding entry_is_expired time
entry_is_expired-live e w = ground arith

restore-IsOwned :
    (t : HashTable) (k v : Bytes) (x : ℤ) (file : Bytes) (w : World)
    → IsValid t
    → 3 * entries t + 2 ≤ w.live
    → IsOwned 2 t w (table_in (restore t k v x file w).0) (restore t k v x file w).1
unfolding restore free
restore-IsOwned t k v x file w valid room =
    let looked = (entry_is_expired (stored k v x) w).1 in
    let live = entry_is_expired-live (stored k v x) w in
    let s = hash_table_set_with_expiry-SetResult t k v x looked valid in
    elim (Bool-cases (entry_is_expired (stored k v x) w).0) [
      | inl over ↦ rw over (record { valid = valid; owned = omega (arith, live, room) })
      | inr kept ↦ elim (Bool-cases (hash_table_set_with_expiry t k v x looked).0.0) [
        | inl done ↦
            rw (kept, done) (record { valid = s.valid; owned = omega (arith, live, room, s.owned) })
        | inr refused ↦
            rw (kept, refused)
              (record { valid = s.valid; owned = omega (arith, live, room, s.owned) })
      ]
    ]

load_set-IsOwned :
    (t : HashTable) (file : Bytes) (w : World)
    → IsValid t
    → 3 * entries t ≤ w.live
    → IsOwned 0 t w (table_in (load_set t file w).0) (load_set t file w).1
unfolding load_set free
load_set-IsOwned t file w valid room =
    let w' = (read_string file w).1 in
    elim (read_string-live file w) [
      | inl (h, live) ↦
          rw (h, load_set, ◌>>=◌) (record { valid = valid; owned = omega (arith, live) })
      | inr (k, after, h, live) ↦
          let w'' = (read_string after w').1 in
          elim (read_string-live after w') [
            | inl (g, live') ↦
                rw (h, g, load_set, ◌>>=◌)
                  (record { valid = valid; owned = omega (arith, live, live') })
            | inr (v, after', g, live') ↦ elim (Option-cases (read_expiry after')) [
              | inl x ↦
                  rw (h, g, x, load_set, ◌>>=◌)
                    (record { valid = valid; owned = omega (arith, live, live') })
              | inr ((e, rest), x) ↦
                  let r =
                    restore-IsOwned t k v e rest w'' valid (omega (arith, live, live', room)) in
                  rw (h, g, x, load_set, ◌>>=◌)
                    (record { valid = r.valid; owned = omega (arith, live, live', r.owned) })
            ]
          ]
    ]

load_del-IsOwned :
    (t : HashTable) (file : Bytes) (w : World)
    → IsValid t
    → 3 * entries t ≤ w.live
    → IsOwned 0 t w (table_in (load_del t file w).0) (load_del t file w).1
unfolding load_del free
load_del-IsOwned t file w valid room =
    let w' = (read_string file w).1 in
    elim (read_string-live file w) [
      | inl (h, live) ↦
          rw (h, load_del, ◌>>=◌) (record { valid = valid; owned = omega (arith, live) })
      | inr (k, after, h, live) ↦
          let d = hash_table_delete-DeleteResult t k w' valid (omega (arith, live, room)) in
          elim (Option-cases (expect 10 after)) [
            | inl e ↦
                rw (h, e, load_del, ◌>>=◌)
                  (record { valid = d.valid; owned = omega (arith, live, room, d.owned) })
            | inr (rest, e) ↦
                rw (h, e, load_del, ◌>>=◌)
                  (record { valid = d.valid; owned = omega (arith, live, room, d.owned) })
          ]
    ]

load_line-IsOwned :
    (t : HashTable) (command file : Bytes) (w : World)
    → IsValid t
    → 3 * entries t ≤ w.live
    → IsOwned 0 t w (table_in (load_line t command file w).0) (load_line t command file w).1
unfolding load_line
load_line-IsOwned t command file w valid room =
    if-either (λ r. IsOwned 0 t w (table_in r.0) r.1) (str_eq command (codes "SET")) _ _ w
      (load_set-IsOwned t file w valid room)
      (if-either (λ r. IsOwned 0 t w (table_in r.0) r.1) (str_eq command (codes "DEL")) _ _ w
        (load_del-IsOwned t file w valid room) (record { valid = valid; owned = omega arith }))

-- What a run of the loop that ended leaves.
abbrev EndsOwned : HashTable → World → Option (Bool × HashTable) → World → Type 0
EndsOwned t w none w' = Unit
EndsOwned t w (some ended) w' = IsOwned 0 t w ended.1 w'

EndsOwned-after :
    (t : HashTable) (w : World) (t' : HashTable) (w' : World) (result : Option (Bool × HashTable))
    (w'' : World)
    → IsOwned 0 t w t' w'
    → EndsOwned t' w' result w''
    → EndsOwned t w result w''
EndsOwned-after t w t' w' none w'' line more = tt
EndsOwned-after t w t' w' (some ended) w'' line more = record {
  valid = more.valid;
  owned = omega (arith, line.owned, more.owned);
}

load_lines-EndsOwned :
    (fuel : ℕ) (t : HashTable) (file : Bytes) (w : World)
    → IsValid t
    → 3 * entries t ≤ w.live
    → EndsOwned t w (load_lines fuel t file w).0 (load_lines fuel t file w).1
unfolding load_lines
load_lines-EndsOwned zero t file w valid room = tt
load_lines-EndsOwned (suc fuel) t file w valid room = elim (Option-cases (scan_word 3 file)) [
  | inl h ↦ rw (h, load_lines) (record { valid = valid; owned = omega arith })
  | inr ((command, after), h) ↦
      let w' = (load_line t command after w).1 in
      let line = load_line-IsOwned t command after w valid room in
      elim (Loaded-cases (load_line t command after w).0) [
        | inl (t', e) ↦
            let line' : IsOwned 0 t w t' w' = subst (λ l. IsOwned 0 t w (table_in l) w') e line in
            rw (h, e, load_lines, ◌>>=◌) line'
        | inr (t', file', e) ↦
            let line' : IsOwned 0 t w t' w' = subst (λ l. IsOwned 0 t w (table_in l) w') e line in
            let more =
              load_lines-EndsOwned fuel t' file' w' line'.valid
                (omega (arith, line'.owned, room)) in
            rw (h, e, load_lines, ◌>>=◌)
              (EndsOwned-after t w t' w' (load_lines fuel t' file' w').0
                (load_lines fuel t' file' w').1 line' more)
      ]
]

-- Loading a file of any content from which no read overruns its block, under any answers of the heap
-- and of stdio and whether it succeeds or not, from a valid table whose blocks are allocated: the table
-- is valid, and the live blocks change by three for each entry that is more or fewer.
pub persistence_load-IsOwned :
    (t : HashTable) (w : World)
    → IsValid t
    → 3 * entries t ≤ w.live
    → (persistence_load t w).1.overrun ≡ false
    → IsValid (persistence_load t w).0.1
      × ((persistence_load t w).1.live + 3 * entries t
          ≡ w.live + 3 * entries (persistence_load t w).0.1)
unfolding persistence_load fopen_read io_call
persistence_load-IsOwned t w valid room inside =
    let opened : World = (io_call w).1 in
    elim (Option-cases (if w.io 0 then w.aof else none)) [
      | inl h ↦ rw h (valid, omega arith)
      | inr (file, h) ↦
          let fuel = suc (length file) in
          let (ended, w', runs, _) =
            load_lines-fuel fuel fuel t file opened (omega arith) (omega arith) in
          let r : IsOwned 0 t opened ended.1 w' =
            subst (λ (l : Option (Bool × HashTable) × World). EndsOwned t opened l.0 l.1) runs
              (load_lines-EndsOwned fuel t file opened valid room) in
          rw (h, ◌>>=◌, runs) (r.valid, omega (arith, r.owned))
    ]
