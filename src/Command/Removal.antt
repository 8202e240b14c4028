-- ===== src/Command/Removal.antt =====
-- DEL of src/command.c, at `command_execute`.
use in_mem_db.Base.{
  Bytes, [], ◌∷◌, ◌++◌, ℕ, ℤ, pos, codes, take, ◌-◌, ◌*◌, ◌≤◌, ◌≡◌, ◌∙◌, ap, str_eq, some, none,
  Bool, false, arith, refl, ◌≢◌, ◌⊎◌, inl, inr, Bool-cases, Option-cases,
}
use in_mem_db.World.{World, time}
use in_mem_db.Entry.{Entry, entry_is_expired}
use in_mem_db.HashTable.{HashTable}
use in_mem_db.HashTable.Valid.{lookup, IsValid, entries}
use in_mem_db.HashTable.Reads.{visible, expired_at, entry_is_expired-eq}
use in_mem_db.HashTable.Delete.{hash_table_delete-DeleteResult, absent}
use in_mem_db.Persistence.{contents, del_line}
use in_mem_db.Persistence.Append.{append_line-succeeds, closed}
use in_mem_db.Persistence.Log.{remove, apply}
use in_mem_db.Command.Set.{Writes, find_entry-lookup}
use in_mem_db.Command.Delete.{delete_live_done}
use in_mem_db.Command.Effects.{dispatched}
use in_mem_db.Command.{
  parse_command, Executed, execute_del, delete_live, dispatch, command_execute, upper, find_entry,
  hash_table_delete,
}

-- What DEL leaves when the file takes the line: only a key that is visible goes.
pub record DelEffect (size : ℕ) (t : HashTable) (k : Bytes) (now : ℤ) (w : World)
    (r : Executed × World) : Type 0 where
  pub result : r.0.result ≡ pos 0
  pub outcome :
      ((visible now (lookup t k) ≡ none)
        × (r.0.response ≡ take (size - 1) (codes "0\n"))
        × (r.0.table ≡ t)
        × (r.1.aof ≡ w.aof))
      ⊎ ((visible now (lookup t k) ≢ none)
          × (r.0.response ≡ take (size - 1) (codes "1\n"))
          × ((q : Bytes) → lookup r.0.table q ≡ apply (remove k) (lookup t) q)
          × (r.1.aof ≡ some (contents w.aof ++ del_line k)))

visible-some :
    (t : HashTable) (k : Bytes) (e : Entry) (now : ℤ)
    → lookup t k ≡ some e
    → expired_at now e ≡ false
    → visible now (lookup t k) ≢ none
visible-some t k e now there fresh gone =
    let seen : visible now (lookup t k) ≡ some e.value = rw (there, fresh) refl in absurd (cc)

reads_clock :
    (e : Entry) (w : World)
    → ((entry_is_expired e w).1.live ≡ w.live)
      × ((entry_is_expired e w).1.aof ≡ w.aof)
      × ((entry_is_expired e w).1.io ≡ w.io)
unfolding entry_is_expired time
reads_clock e w = ground arith

module _ (size : ℕ) (t : HashTable) (k : Bytes) (w : World) where
  -- The key is there and visible.
  live_DelEffect :
      IsValid t
      → 3 * entries t ≤ w.live
      → Writes w
      → (e : Entry) → lookup t k ≡ some e
      → (now : ℤ) → expired_at now e ≡ false
      → DelEffect size t k now w (delete_live size t k w)
  live_DelEffect valid owns (a, b, c) e there now fresh =
      let line = del_line k in
      let w' = closed line w line in
      let d = hash_table_delete-DeleteResult t k w' valid owns in
      let logged = append_line-succeeds line w a b c in
      elim (Bool-cases (hash_table_delete t k w').0.0) [
        | inr gone ↦ let missing = absent t k w' _ d gone in absurd (cc)
        | inl done ↦
            let ran =
              delete_live_done size t k w (ap (λ r. r.0) logged)
                (ap (λ (r : Bool × World). (hash_table_delete t k r.1).0.0) logged ∙ done) in
            rw (ran, logged)
              (record {
                result = refl;
                outcome = inr (visible-some t k e now there fresh, refl, d.reads, d.outside.aof);
              })
      ]

module _ (size : ℕ) (t : HashTable) (k : Bytes) (w : World) where
  del_DelEffect :
      IsValid t
      → 3 * entries t ≤ w.live
      → Writes w
      → DelEffect size t k (w.clock 0) w (execute_del size t (k ∷ []) w)
  unfolding execute_del
  del_DelEffect valid owns writes = elim (Option-cases (lookup t k)) [
    | inl absent ↦
        let nothing : find_entry t k ≡ none = find_entry-lookup t k ∙ absent in
        rw (nothing, execute_del)
          (record { result = refl; outcome = inl (rw absent refl, refl, refl, refl) })
    | inr (e, there) ↦
        let found : find_entry t k ≡ some e = find_entry-lookup t k ∙ there in
        let w' = (entry_is_expired e w).1 in
        let (live, aof, io) = reads_clock e w in
        let now = w.clock 0 in
        elim (Bool-cases (expired_at now e)) [
          | inl gone ↦
              rw (found, execute_del)
                (rw (entry_is_expired-eq e w, gone)
                  (record {
                    result = refl;
                    outcome = inl (rw (there, gone) refl, refl, refl, aof);
                  }))
          | inr fresh ↦
              let d =
                live_DelEffect size t k w' valid (omega (arith, live)) (rw io writes) e there now
                  fresh in
              rw (found, execute_del)
                (rw (entry_is_expired-eq e w, fresh)
                  (record { result = d.result; outcome = rw aof at d.outcome }))
        ]
  ]

-- A line that parses as DEL of one key, on a valid table whose blocks are allocated, when the append
-- succeeds: if the key is visible at the clock's reading, the answer is 1, the key is gone, every
-- other key is as before, and the file has got the line of the deletion; if the key is missing or has
-- expired, the answer is 0, and the table and the file are as they were.
pub command_execute-del :
    (t : HashTable) (input name k : Bytes) (size : ℕ) (w : World)
    → parse_command input ≡ some (name ∷ k ∷ [])
    → upper name ≡ codes "DEL"
    → IsValid t
    → 3 * entries t ≤ w.live
    → Writes w
    → DelEffect size t k (w.clock 0) w (command_execute t input size w)
unfolding dispatch str_eq
command_execute-del t input name k size w h n valid owns writes =
    rw (dispatched t input name (k ∷ []) size w h, n) (del_DelEffect size t k w valid owns writes)
