-- ===== src/Command/Contract.antt =====
-- The contract between the table and the file, for the commands of src/command.c.
use in_mem_db.Base.{
  not, Bytes, List, [], ◌∷◌, ℕ, pos, negsuc, codes, ◌*◌, ◌≤◌, ◌≡◌, ◌≢◌, ◌∙◌, ap, str_eq, some, none,
  Option, arith, refl, Bool-cases, inl, inr, Option-cases, ◌⊎◌, ◌+◌,
}
use in_mem_db.World.{if-either, Run, ahead, World, time, fprintf}
use in_mem_db.Entry.{Entry, entry_is_expired}
use in_mem_db.HashTable.{HashTable}
use in_mem_db.HashTable.Valid.{lookup, entries, IsValid}
use in_mem_db.Persistence.{
  contents, persistence_rewrite, rewrite_chain, rewrite_buckets, fopen_tmp, fclose_tmp, rename_tmp,
  set_line,
}
use in_mem_db.Command.Journal.{Journals, failed-Journals, unchanged-Journals}
use in_mem_db.Command.Set.{set_plain-Journals, set_expiring-Journals, find_entry-lookup}
use in_mem_db.Command.ReadOnly.{Untouched, execute_get-Untouched, execute_ttl-Untouched}
use in_mem_db.Command.Delete.{delete_live-Journals}
use in_mem_db.Command.{
  parse_command, Executed, answer, execute_set, execute_del, execute_ping, execute_exit, find_entry,
  dispatch, execute_parsed, command_execute, upper, parse_expiry_seconds, set_expiring,
}

-- The test of expiry reads the clock at most.
entry_is_expired-world :
    (e : Entry) (w : World)
    → ((entry_is_expired e w).1.live ≡ w.live) × ((entry_is_expired e w).1.aof ≡ w.aof)
unfolding entry_is_expired time
entry_is_expired-world e w = ground arith

-- A run from a world that differs only in the clock.
earlier-Journals :
    (t : HashTable) (w w' : World) (r : Executed × World)
    → w'.live ≡ w.live
    → w'.aof ≡ w.aof
    → Journals t w' r
    → Journals t w r
earlier-Journals t w w' r live aof j = record {
  changes = j.changes;
  single = j.single;
  valid = j.valid;
  reads = j.reads;
  outcome = rw aof at j.outcome;
  owned = omega (arith, j.owned, live);
}

rewrite_chain-live :
    (c : List Entry) (pending : Bytes) (w : World) → (rewrite_chain c pending w).1.live ≡ w.live
unfolding rewrite_chain fprintf entry_is_expired time
rewrite_chain-live [] pending w = refl
rewrite_chain-live (e ∷ c) pending w =
    let w' = (entry_is_expired e w).1 in
    let printed = fprintf pending (set_line e.key e.value e.expires_at) w' in
    ground (arith, rewrite_chain-live c pending w', rewrite_chain-live c printed.0.1 printed.1)

rewrite_buckets-live :
    (bs : List (List Entry)) (pending : Bytes) (w : World)
    → (rewrite_buckets bs pending w).1.live ≡ w.live
unfolding rewrite_buckets
rewrite_buckets-live [] pending w = refl
rewrite_buckets-live (c ∷ bs) pending w =
    let r = rewrite_chain c pending w in
    ground (arith, rewrite_chain-live c pending w, rewrite_buckets-live bs r.0.1 r.1)

-- A rewrite allocates nothing, however it ends.
pub persistence_rewrite-live :
    (t : HashTable) (w : World) → (persistence_rewrite t w).1.live ≡ w.live
unfolding persistence_rewrite fopen_tmp fclose_tmp rename_tmp
persistence_rewrite-live t w =
    let opened = record w { io = ahead w.io; torn = ahead w.torn; tmp = some [] } in
    elim (Bool-cases (w.io 0)) [
      | inl file ↦ rw file (ground (arith, rewrite_buckets-live t.buckets [] opened))
      | inr no_file ↦ rw no_file
    ]

module _ (size : ℕ) (t : HashTable) (w : World) (valid : IsValid t)
    (owns : 3 * entries t ≤ w.live) where
  Untouched-Journals : (r : Executed × World) → Untouched t w r → Journals t w r
  Untouched-Journals r u = unchanged-Journals t w r valid u.table u.live (ap contents u.aof)

  set-Journals : (argv : List Bytes) → Journals t w (execute_set size t argv w)
  unfolding execute_set
  set-Journals (k ∷ v ∷ []) = set_plain-Journals size t k v w valid
  set-Journals (k ∷ v ∷ ex ∷ seconds ∷ []) =
      if-either (Journals t w) (not (str_eq (upper ex) (codes "EX"))) _ _ w
        (unchanged-Journals t w _ valid refl refl refl)
        (elim (parse_expiry_seconds seconds)
          as (λ o. Journals t w (
            (elim o as (λ _. Run Executed) [
              | none ↦ answer size (negsuc 0) (codes "ERR invalid expire time\n") t
              | some x ↦ set_expiring size t k v x
            ])
              w)) [
                | none ↦ unchanged-Journals t w _ valid refl refl refl
                | some x ↦ set_expiring-Journals size t k v w valid x
              ])
  set-Journals _ = unchanged-Journals t w _ valid refl refl refl

  -- A key that is there, whether it has expired or not.
  del_found :
      (k : Bytes) (e : Entry) → lookup t k ≡ some e → Journals t w (execute_del size t (k ∷ []) w)
  unfolding execute_del
  del_found k e there =
      let w' = (entry_is_expired e w).1 in
      let (live, aof) = entry_is_expired-world e w in
      let found : find_entry t k ≡ some e = find_entry-lookup t k ∙ there in
      let j = delete_live-Journals size t k w' valid (omega (arith, live)) (λ absent. cc) in
      rw (found, execute_del)
        (if-either (Journals t w) (entry_is_expired e w).0 _ _ w'
          (unchanged-Journals t w _ valid refl live (ap contents aof))
          (earlier-Journals t w w' _ live aof j))

  del-Journals : (argv : List Bytes) → Journals t w (execute_del size t argv w)
  unfolding execute_del
  del-Journals [] = unchanged-Journals t w _ valid refl refl refl
  del-Journals (k ∷ []) = elim (Option-cases (lookup t k)) [
    | inl absent ↦
        let nothing : find_entry t k ≡ none = find_entry-lookup t k ∙ absent in
        rw (nothing, execute_del) (unchanged-Journals t w _ valid refl refl refl)
    | inr (e, there) ↦ del_found k e there
  ]
  del-Journals (k ∷ x ∷ more) = unchanged-Journals t w _ valid refl refl refl

  ping-Journals : (argv : List Bytes) → Journals t w (execute_ping size t argv w)
  unfolding execute_ping
  ping-Journals [] = unchanged-Journals t w _ valid refl refl refl
  ping-Journals (x ∷ more) = unchanged-Journals t w _ valid refl refl refl

  -- The contract of a command, unless it is an EXIT that ended the session.
  abbrev Contract : Executed × World → Type 0
  Contract r = Journals t w r ⊎ ((r.0.result ≡ pos 1) × (r.0.table ≡ t) × (r.1.live ≡ w.live))

  exit-Contract : (argv : List Bytes) → Contract (execute_exit size t argv w)
  unfolding execute_exit
  exit-Contract [] =
      let w' = (persistence_rewrite t w).1 in
      if-either Contract (not (persistence_rewrite t w).0) _ _ w'
        (inl (failed-Journals t w _ valid refl refl (persistence_rewrite-live t w)))
        (inr (refl, refl, persistence_rewrite-live t w))
  exit-Contract (x ∷ more) = inl (unchanged-Journals t w _ valid refl refl refl)

  dispatch-Contract : (name : Bytes) (argv : List Bytes) → Contract (dispatch size t name argv w)
  unfolding dispatch
  dispatch-Contract name argv =
      if-either Contract (str_eq name (codes "SET")) _ _ w (inl (set-Journals argv)) (
        if-either Contract (str_eq name (codes "GET")) _ _ w
          (inl (Untouched-Journals _ (execute_get-Untouched size t w argv)))
          (if-either Contract (str_eq name (codes "TTL")) _ _ w
            (inl (Untouched-Journals _ (execute_ttl-Untouched size t w argv)))
            (if-either Contract (str_eq name (codes "DEL")) _ _ w (inl (del-Journals argv)) (
              if-either Contract (str_eq name (codes "PING")) _ _ w (inl (ping-Journals argv)) (
                if-either Contract (str_eq name (codes "EXIT")) _ _ w (exit-Contract argv)
                  (inl (unchanged-Journals t w _ valid refl refl refl)))))))

  execute_parsed-Contract : (argv : Option (List Bytes)) → Contract (execute_parsed size t argv w)
  unfolding execute_parsed
  execute_parsed-Contract none = inl (unchanged-Journals t w _ valid refl refl refl)
  execute_parsed-Contract (some []) = inl (unchanged-Journals t w _ valid refl refl refl)
  execute_parsed-Contract (some (name ∷ argv)) = dispatch-Contract (upper name) argv

-- Any input line, on a valid table whose blocks are allocated: unless it is an EXIT that succeeds,
-- the command makes at most one change to the table; without an error the file has got exactly the
-- lines of that change; with an error the table is as it was; the invariant holds again, and the
-- live blocks follow the number of entries.
pub command_execute-Journals :
    (t : HashTable) (input : Bytes) (size : ℕ) (w : World)
    → IsValid t
    → 3 * entries t ≤ w.live
    → (command_execute t input size w).0.result ≢ pos 1
    → Journals t w (command_execute t input size w)
unfolding command_execute
command_execute-Journals t input size w valid owns goes_on =
    elim (execute_parsed-Contract size t w valid owns (parse_command input)) [
      | inl j ↦ j
      | inr (ended, same, live) ↦ absurd (goes_on ended)
    ]

-- Any input line, EXIT included, on a valid table whose blocks are allocated: the table is valid
-- behind it, and the number of live blocks changes by three for each entry that is added or removed.
pub command_execute-IsValid :
    (t : HashTable) (input : Bytes) (size : ℕ) (w : World)
    → IsValid t
    → 3 * entries t ≤ w.live
    → IsValid (command_execute t input size w).0.table
      × ((command_execute t input size w).1.live + 3 * entries t
          ≡ w.live + 3 * entries (command_execute t input size w).0.table)
unfolding command_execute
command_execute-IsValid t input size w valid owns =
    elim (execute_parsed-Contract size t w valid owns (parse_command input)) [
      | inl j ↦ (j.valid, j.owned)
      | inr (ended, same, live) ↦ (rw same valid, rw (same, live))
    ]
