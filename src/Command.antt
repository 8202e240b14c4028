-- ===== src/Command.antt =====
-- include/command.h and src/command.c: parsing a command line and executing it.
--
-- `parse_command` works in place: an argument is the pointer to its first byte, and a NUL is written
-- behind its last one. Here an argument is the C string that is read through its pointer.
pub mod Tests
pub mod Journal
pub mod Loop
pub mod Contract
pub mod ReadOnly
pub mod Set
pub mod Delete
pub mod Effects
pub mod RoundTrip
pub mod Parse
pub mod Remaining
pub mod Served
pub mod Removal
use in_mem_db.Base.{
  ℕ, zero, suc, Bytes, ℤ, codes, List, [], ◌∷◌, ◌++◌, Option, some, none, Bool, true, false, not,
  pos, negsuc, is_zero, leb_ℤ, ltb, str_eq, length, take, map, to_upper, is_space, add64, sub64,
  if◌then◌else◌, ◌-◌, ◌==◌, ◌+◌,
}
use in_mem_db.World.{World, Run, pure, ◌>>=◌, ◌>>◌, time}
use in_mem_db.Entry.{Entry, entry_is_expired}
use in_mem_db.HashTable.{
  HashTable, find_in_chain, modify_in_chain, chain_of, set_chain, hash_table_set, hash_table_delete,
}
use in_mem_db.Stdio.{skip_space, scan_long, print_long}
use in_mem_db.Persistence.{
  persistence_append_set, persistence_append_set_expiry, persistence_append_del,
  persistence_rewrite,
}

abbrev pub max_args : ℕ
max_args = 5

-- The bytes up to the closing quote, and what follows it; `none` if there is none.
unfoldable pub scan_quoted : Bytes → Option (Bytes × Bytes)
scan_quoted [] = none
scan_quoted (c ∷ p) =
    let more = scan_quoted p in
    if c == b'"'
    then some ([], p)
    else elim more [ none ↦ none | some (argument, rest) ↦ some (c ∷ argument, rest) ]

-- The bytes up to the next white space, which is skipped.
unfoldable pub scan_bare : Bytes → Bytes × Bytes
scan_bare [] = ([], [])
scan_bare (c ∷ p) = let more = scan_bare p in if is_space c then ([], p) else (c ∷ more.0, more.1)

abbrev pub prepend : Bytes → Option (List Bytes) → Option (List Bytes)
prepend argument none = none
prepend argument (some rest) = some (argument ∷ rest)

abbrev pub prepend_to : Bytes → Option (Option (List Bytes)) → Option (Option (List Bytes))
prepend_to argument none = none
prepend_to argument (some result) = some (prepend argument result)

-- The result of a loop that has come to its end.
abbrev pub ended : Option (Option (List Bytes)) → Option (List Bytes)
ended none = none
ended (some result) = result

-- The argument that starts with the byte `c`, which is no white space, and what follows it.
unfoldable pub scan_argument : ℕ → Bytes → Option (Bytes × Bytes)
unfolding scan_quoted scan_bare
scan_argument c p = if c == b'"' then scan_quoted p else some (scan_bare (c ∷ p))

-- The loop, with `argc` arguments read and fuel above the number of bytes left. `none` is a loop that
-- has not come to its end, `some none` is -1.
unfoldable pub parse_from : ℕ → ℕ → Bytes → Option (Option (List Bytes))
unfolding scan_argument
parse_from zero argc input = none
parse_from (suc fuel) argc input = elim (skip_space input) [
  | [] ↦ some (some [])
  | c ∷ p ↦ elim (ltb argc max_args) [
    | false ↦ some none
    | true ↦ elim (scan_argument c p) [
      | none ↦ some none
      | some (argument, rest) ↦ prepend_to argument (parse_from fuel (argc + 1) rest)
    ]
  ]
]

unfoldable pub parse_command : Bytes → Option (List Bytes)
unfolding parse_from
parse_command input = ended (parse_from (suc (length input)) 0 input)

unfoldable pub find_entry : HashTable → Bytes → Option Entry
find_entry table key = find_in_chain key (chain_of table key)

-- `entry->expires_at = expires_at` through the pointer that `find_entry` returned for `key`
unfoldable pub write_expiry : HashTable → Bytes → ℤ → HashTable
write_expiry table key expires_at =
    let write = λ (entry : Entry). record entry { expires_at = expires_at } in
    record table { buckets = set_chain table key (modify_in_chain key write (chain_of table key)) }

unfoldable pub parse_expiry_seconds : Bytes → Option ℤ
parse_expiry_seconds [] = none
parse_expiry_seconds (c ∷ value) = elim (scan_long (c ∷ value)) [
  | none ↦ none
  | some (parsed, end) ↦ elim end [
    | d ∷ more ↦ none
    | [] ↦ if leb_ℤ parsed (pos 0) then none else some parsed
  ]
]

-- What a command returns, what it prints, and the table behind it.
pub record Executed : Type 0 where
  pub result : ℤ
  pub response : Bytes
  pub table : HashTable

-- `snprintf(response, response_size, ...)` and `return`
unfoldable pub answer : ℕ → ℤ → Bytes → HashTable → Run Executed
answer size result text table =
    pure (record { result = result; response = take (size - 1) text; table = table })

unfoldable pub upper : Bytes → Bytes
unfolding to_upper
upper = map to_upper

-- The end of SET: the expiry is written into the entry.
unfoldable pub set_memory : ℕ → HashTable → Bytes → Bytes → Bool → ℤ → Run Executed
unfolding answer
set_memory size table key value has_expiry expires_at = do
  (stored, table') ← hash_table_set table key value
  if not stored
      then answer size (negsuc 0) (codes "ERR failed to set key\n") table'
      else if has_expiry
      then elim (find_entry table' key) [
        | none ↦ answer size (negsuc 0) (codes "ERR failed to set expiration\n") table'
        | some entry ↦ answer size (pos 0) (codes "OK\n") (write_expiry table' key expires_at)
      ]
      else elim (find_entry table' key) [
        | none ↦ answer size (pos 0) (codes "OK\n") table'
        | some entry ↦ answer size (pos 0) (codes "OK\n") (write_expiry table' key (pos 0))
      ]

-- SET behind the checks of its arguments: the file first, then the table.
unfoldable pub set_plain : ℕ → HashTable → Bytes → Bytes → Run Executed
unfolding answer
set_plain size table key value = do
  persisted ← persistence_append_set key value
  if not persisted
      then answer size (negsuc 0) (codes "ERR failed to write AOF\n") table
      else set_memory size table key value false (pos 0)

unfoldable pub set_expiring : ℕ → HashTable → Bytes → Bytes → ℤ → Run Executed
unfolding answer
set_expiring size table key value expiry_seconds = do
  now ← time
  persisted ← persistence_append_set_expiry key value (add64 now expiry_seconds)
  if not persisted
      then answer size (negsuc 0) (codes "ERR failed to write AOF\n") table
      else set_memory size table key value true (add64 now expiry_seconds)

-- SET; the argument list is what follows the name.
unfoldable pub execute_set : ℕ → HashTable → List Bytes → Run Executed
unfolding answer
execute_set size table (key ∷ value ∷ []) = set_plain size table key value
execute_set size table (key ∷ value ∷ ex ∷ seconds ∷ []) =
    if not (str_eq (upper ex) (codes "EX"))
    then answer size (negsuc 0) (codes "ERR syntax error\n") table
    else elim (parse_expiry_seconds seconds) [
      | none ↦ answer size (negsuc 0) (codes "ERR invalid expire time\n") table
      | some expiry_seconds ↦ set_expiring size table key value expiry_seconds
    ]
execute_set size table _ = answer size (negsuc 0) (codes "ERR wrong number of arguments\n") table

unfoldable pub execute_get : ℕ → HashTable → List Bytes → Run Executed
unfolding answer
execute_get size table (key ∷ []) = elim (find_entry table key) [
  | none ↦ answer size (pos 0) (codes "(nil)\n") table
  | some entry ↦ do
    expired ← entry_is_expired entry
    if expired
        then answer size (pos 0) (codes "(nil)\n") table
        else answer size (pos 0) (entry.value ++ codes "\n") table
]
execute_get size table _ = answer size (negsuc 0) (codes "ERR wrong number of arguments\n") table

-- The end of TTL, with the clock read a second time.
unfoldable pub ttl_remaining : ℕ → HashTable → Entry → Run Executed
unfolding answer
ttl_remaining size table entry = do
  now ← time
  if leb_ℤ (sub64 entry.expires_at now) (pos 0)
      then answer size (pos 0) (codes "-2\n") table
      else answer size (pos 0) (print_long (sub64 entry.expires_at now) ++ codes "\n") table

unfoldable pub execute_ttl : ℕ → HashTable → List Bytes → Run Executed
unfolding answer ttl_remaining
execute_ttl size table (key ∷ []) = elim (find_entry table key) [
  | none ↦ answer size (pos 0) (codes "-2\n") table
  | some entry ↦ do
    expired ← entry_is_expired entry
    if expired
        then answer size (pos 0) (codes "-2\n") table
        else if is_zero entry.expires_at
        then answer size (pos 0) (codes "-1\n") table
        else ttl_remaining size table entry
]
execute_ttl size table _ = answer size (negsuc 0) (codes "ERR wrong number of arguments\n") table

-- DEL of a key that is there and has not expired: the file first, then the table.
unfoldable pub delete_live : ℕ → HashTable → Bytes → Run Executed
unfolding answer
delete_live size table key = do
  persisted ← persistence_append_del key
  if not persisted then answer size (negsuc 0) (codes "ERR failed to write AOF\n") table else do
    (deleted, table') ← hash_table_delete table key
    if not deleted
        then answer size (negsuc 0) (codes "ERR failed to delete key\n") table'
        else answer size (pos 0) (codes "1\n") table'

unfoldable pub execute_del : ℕ → HashTable → List Bytes → Run Executed
unfolding answer
execute_del size table (key ∷ []) = elim (find_entry table key) [
  | none ↦ answer size (pos 0) (codes "0\n") table
  | some entry ↦ do
    expired ← entry_is_expired entry
    if expired then answer size (pos 0) (codes "0\n") table else delete_live size table key
]
execute_del size table _ = answer size (negsuc 0) (codes "ERR wrong number of arguments\n") table

unfoldable pub execute_ping : ℕ → HashTable → List Bytes → Run Executed
unfolding answer
execute_ping size table [] = answer size (pos 0) (codes "PONG\n") table
execute_ping size table _ = answer size (negsuc 0) (codes "ERR wrong number of arguments\n") table

unfoldable pub execute_exit : ℕ → HashTable → List Bytes → Run Executed
unfolding answer
execute_exit size table [] = do
  rewritten ← persistence_rewrite table
  if not rewritten
      then answer size (negsuc 0) (codes "ERR failed to rewrite AOF\n") table
      else answer size (pos 1) (codes "BYE\n") table
execute_exit size table _ = answer size (negsuc 0) (codes "ERR wrong number of arguments\n") table

-- The ladder of `strcmp` on the command name.
unfoldable pub dispatch : ℕ → HashTable → Bytes → List Bytes → Run Executed
unfolding answer
dispatch size table name argv =
    if str_eq name (codes "SET")
    then execute_set size table argv
    else if str_eq name (codes "GET")
    then execute_get size table argv
    else if str_eq name (codes "TTL")
    then execute_ttl size table argv
    else if str_eq name (codes "DEL")
    then execute_del size table argv
    else if str_eq name (codes "PING")
    then execute_ping size table argv
    else if str_eq name (codes "EXIT")
    then execute_exit size table argv
    else answer size (negsuc 0) (codes "ERR unknown command\n") table

unfoldable pub execute_parsed : ℕ → HashTable → Option (List Bytes) → Run Executed
unfolding answer
execute_parsed size table none = answer size (negsuc 0) (codes "ERR invalid command\n") table
execute_parsed size table (some []) = answer size (pos 0) [] table
execute_parsed size table (some (name ∷ argv)) = dispatch size table (upper name) argv

unfoldable pub command_execute : HashTable → Bytes → ℕ → Run Executed
unfolding execute_parsed
command_execute table input response_size = execute_parsed response_size table (parse_command input)
