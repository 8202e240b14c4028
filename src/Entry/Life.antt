-- ===== src/Entry/Life.antt =====
-- The life of an entry of src/entry.c: its blocks and its deadline.
use in_mem_db.Base.{
  Bytes, ℕ, pos, ◌+◌, ◌-◌, ◌^◌, ◌≤◌, ◌≡◌, ◌⊎◌, inl, inr, some, none, true, false, ◌&&◌, Bool-cases,
  arith, leb, add64_pos,
}
use in_mem_db.World.{World, malloc, free, time}
use in_mem_db.Entry.{Entry, entry_create, entry_set_expiry, entry_is_expired}

-- An entry that is created owns three blocks and has no deadline; if the heap refuses one of them
-- there is no entry, and no block is kept.
pub entry_create-owned :
    (k v : Bytes) (w : World)
    → (((entry_create k v w).0 ≡ some (record { key = k; value = v; expires_at = pos 0 }))
        × ((entry_create k v w).1.live ≡ w.live + 3))
      ⊎ ((w.heap 0 && (w.heap 1 && w.heap 2) ≡ false)
          × ((entry_create k v w).0 ≡ none)
          × ((entry_create k v w).1.live ≡ w.live))
unfolding entry_create malloc free
entry_create-owned k v w = elim (Bool-cases (w.heap 0 && (w.heap 1 && w.heap 2))) [
  | inl granted ↦
      let a : w.heap 0 ≡ true = ground arith in
      let b : w.heap 1 ≡ true = ground arith in
      let c : w.heap 2 ≡ true = ground arith in inl (ground arith, ground arith)
  | inr denied ↦ inr (denied, ground arith, ground arith)
]

-- An entry that is given at least one second at the time `now`, with a deadline that fits `time_t`,
-- has expired at the time `later` just if `later` is not before `now + seconds`.
pub entry_set_expiry-entry_is_expired :
    (e : Entry) (seconds now later : ℕ) (w w' : World)
    → 1 ≤ seconds
    → now + seconds ≤ 2 ^ 63 - 1
    → w.clock 0 ≡ pos now
    → w'.clock 0 ≡ pos later
    → (entry_is_expired (entry_set_expiry e (pos seconds) w).0 w').0 ≡ leb (now + seconds) later
unfolding entry_set_expiry entry_is_expired time
entry_set_expiry-entry_is_expired e seconds now later w w' some_time fits c c' =
    ground (arith, c, c', add64_pos now seconds fits)
