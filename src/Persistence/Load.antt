-- ===== src/Persistence/Load.antt =====
-- `persistence_load` on a file that records changes.
use in_mem_db.Base.{
  List, [], ◌∷◌, ◌++◌, Bytes, ℤ, none, some, ◌≡◌, ℕ, suc, true, false, length, ◌≤◌, All, arith, ◌⊎◌,
  length-append, pos, ◌∙◌, ap, sym, append-nil, str_eq_refl,
}
use in_mem_db.World.{World, ahead}
use in_mem_db.HashTable.{HashTable}
use in_mem_db.HashTable.Valid.{IsValid, lookup}
use in_mem_db.Persistence.{persistence_load, set_line, del_line, ◌>>=◌}
use in_mem_db.Persistence.Log.{
  Change, put, remove, log_text, IsWritable, replay, current, passed_over,
}
use in_mem_db.HashTable.Set.{stored}
use in_mem_db.Persistence.Replay.{IsCalm, Loads, load_lines-log_text}

-- Every line holds a byte, so that the number of bytes is fuel enough.
length-log_text : (cs : List Change) → length cs ≤ length (log_text cs)
unfolding set_line del_line
length-log_text [] = omega arith
length-log_text (put k v e ∷ cs) =
    omega (arith, length-log_text cs, length-append {0} (set_line k v e) (log_text cs))
length-log_text (remove k ∷ cs) =
    omega (arith, length-log_text cs, length-append {0} (del_line k) (log_text cs))

module _ (now : ℤ) (cs : List Change) (t : HashTable) (w : World) where
  -- Into a valid table, with a heap that grants every block and a clock that stands at `now`, loading
  -- the file of the changes `cs`, of C strings and 64-bit deadlines, succeeds and replays the changes
  -- in order, passing over the puts that have expired by `now`; the invariant holds; no block is lost.
  pub persistence_load-replay :
      IsValid t
      → IsCalm now t w
      → All IsWritable cs
      → w.io 0 ≡ true
      → w.aof ≡ some (log_text cs)
      → Loads t w (replay (current now cs) (lookup t)) (persistence_load t w)
  unfolding persistence_load
  persistence_load-replay valid calm ok opened file =
      let w' = record w { io = ahead w.io; torn = ahead w.torn; aof = some (log_text cs) } in
      let (ended, w'', runs, r) =
        load_lines-log_text now cs (suc (length (log_text cs))) t w'
          (omega (arith, length-log_text cs)) valid
          (record { grants = calm.grants; clock = calm.clock; owns = calm.owns }) ok in
      rw (opened, file, ◌>>=◌, runs)
        (record { done = r.done; valid = r.valid; reads = r.reads; owned = r.owned })

-- Without a file, or when it cannot be opened, loading succeeds and keeps the table that it was given.
pub persistence_load-missing :
    (t : HashTable) (w : World)
    → (w.aof ≡ none) ⊎ (w.io 0 ≡ false)
    → (persistence_load t w).0 ≡ (true, t)
unfolding persistence_load
persistence_load-missing t w h = ground arith

-- A file of a put without expiry and a put of the same key that has expired by the time of the
-- loading, loaded into a valid table with a heap that grants every block: loading succeeds, and the
-- key has the older value.
pub persistence_load-expired_put :
    (t : HashTable) (w : World) (k v v' : Bytes) (deadline now : ℕ)
    → 1 ≤ deadline
    → deadline ≤ now
    → IsValid t
    → IsCalm (pos now) t w
    → IsWritable (put k v (pos 0))
    → IsWritable (put k v' (pos deadline))
    → w.io 0 ≡ true
    → w.aof ≡ some (set_line k v (pos 0) ++ set_line k v' (pos deadline))
    → ((persistence_load t w).0.0 ≡ true)
      × (lookup (persistence_load t w).0.1 k ≡ some (stored k v (pos 0)))
persistence_load-expired_put t w k v v' deadline now first over valid calm older newer opened file =
    let cs = put k v (pos 0) ∷ put k v' (pos deadline) ∷ [] in
    let r =
      persistence_load-replay (pos now) cs t w valid calm (older, (newer, tt)) opened
        (file
          ∙ ap (λ (s : Bytes). some (set_line k v (pos 0) ++ s))
              (sym (append-nil (set_line k v' (pos deadline))))) in
    let gone : passed_over (pos now) (put k v' (pos deadline)) ≡ true = ground arith in
    (r.done, r.reads k ∙ rw (gone, str_eq_refl k))
