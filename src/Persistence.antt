-- ===== src/Persistence.antt =====
-- include/persistence.h and src/persistence.c: the append-only file, its loading and its rewrite.
pub mod Lines
pub mod Log
pub mod Replay
pub mod Append
pub mod Load
pub mod Rewrite
pub mod Restart
pub mod Fuel
pub mod Owned
use in_mem_db.Base.{
  ℕ, zero, suc, Bytes, ℤ, ◌≡◌, codes, List, [], ◌∷◌, ◌++◌, Option, some, none, Bool, true, false,
  not, pos, is_zero, leb_ℤ, str_eq, c_string, length, take, if◌then◌else◌, ◌==◌, ◌+◌, ◌%◌, ◌^◌,
}
use in_mem_db.World.{
  World, Run, ahead, pure, ◌>>=◌, ◌>>◌, malloc, free, time, io_call, fprintf, store,
}
use in_mem_db.Entry.{Entry, entry_is_expired}
use in_mem_db.HashTable.{HashTable, hash_table_set_with_expiry, hash_table_delete}
use in_mem_db.Stdio.{print_size, print_long, scan_size, scan_long, scan_word, expect, fread}

-- `%zu:%s` with the length and the bytes of a string
unfoldable pub counted_text : Bytes → Bytes
counted_text s = print_size (length s) ++ b':' ∷ s

-- "\n" or " EXAT %lld\n"
unfoldable pub expiry_text : ℤ → Bytes
expiry_text expires_at =
    if is_zero expires_at
    then codes "\n"
    else codes " EXAT " ++ (print_long expires_at ++ codes "\n")

-- "SET %zu:%s%zu:%s" and its end
unfoldable pub set_line : Bytes → Bytes → ℤ → Bytes
set_line key value expires_at =
    codes "SET " ++ (counted_text key ++ (counted_text value ++ expiry_text expires_at))

-- "DEL %zu:%s\n"
unfoldable pub del_line : Bytes → Bytes
del_line key = codes "DEL " ++ (counted_text key ++ codes "\n")

abbrev pub contents : Option Bytes → Bytes
contents none = []
contents (some s) = s

-- `fopen(AOF_FILE, "a")`: the file exists from then on.
unfoldable pub fopen_append : Run Bool
unfolding io_call
fopen_append w =
    let (opened, w') = io_call w in
    (opened, if opened then record w' { aof = some (contents w.aof) } else w')

-- `fclose` of that stream: what its buffer holds goes to the end of the file, whole if it succeeds.
unfoldable pub fclose_append : Bytes → Run Bool
unfolding io_call
fclose_append pending w =
    let (closed, w') = io_call w in
    (
      closed,
      record w' {
        aof = some (contents w.aof ++ (if closed then pending else take (w.torn 0) pending));
      },
    )

-- One line is appended: `fopen`, `fprintf`, `fclose`, each of which may fail.
unfoldable pub append_line : Bytes → Run Bool
unfolding fopen_append fclose_append fprintf
append_line line = do
  file ← fopen_append
  if not file then pure false else do
    (result, pending) ← fprintf [] line
    if not result then (do fclose_append pending; pure false) else fclose_append pending

unfoldable pub persistence_append_set_expiry : Bytes → Bytes → ℤ → Run Bool
persistence_append_set_expiry key value expires_at = append_line (set_line key value expires_at)

unfoldable pub persistence_append_set : Bytes → Bytes → Run Bool
unfolding persistence_append_set_expiry
persistence_append_set key value = persistence_append_set_expiry key value (pos 0)

unfoldable pub persistence_append_del : Bytes → Run Bool
persistence_append_del key = append_line (del_line key)

-- A length, a colon and that many bytes, into a new block of one byte more, as `size_t` counts: the C string in it, and what follows.
-- On failure the block is given back.
unfoldable pub read_string : Bytes → Run (Option (Bytes × Bytes))
read_string file = elim (scan_size file) [
  | none ↦ pure none
  | some (key_length, after_length) ↦ elim (expect b':' after_length) [
    | none ↦ pure none
    | some after_colon ↦ do
      key ← malloc
      if not key then pure none else do
        store ((key_length + 1) % 2 ^ 64) (length (fread key_length after_colon).0)
        if not (length (fread key_length after_colon).0 == key_length)
            then (do free; pure none)
            else pure
                (some (c_string (fread key_length after_colon).0, (fread key_length after_colon).1))
  ]
]

-- What follows the value: a newline, or " EXAT ", a timestamp and a newline.
unfoldable pub read_exat : Bytes → Option (ℤ × Bytes)
read_exat file = elim (scan_word 4 file) [
  | none ↦ none
  | some (expiry_command, after_word) ↦ elim (scan_long after_word) [
    | none ↦ none
    | some (expiry_timestamp, after_number) ↦
        if not (str_eq expiry_command (codes "EXAT")) then none else elim (expect 10 after_number) [
          | none ↦ none
          | some after_line ↦ some (expiry_timestamp, after_line)
        ]
  ]
]

unfoldable pub read_expiry : Bytes → Option (ℤ × Bytes)
unfolding read_exat
read_expiry [] = none
read_expiry (next_char ∷ file) =
    if next_char == 10
    then some (pos 0, file)
    else if next_char == b' '
    then read_exat file
    else none

-- The state of the loading loop after one line: an early `return 0`, or the next round.
pub data Loaded : Type 0 where
  stopped : HashTable → Loaded
  next : HashTable → Bytes → Loaded

-- A SET line that was read: dropped if it has expired, else stored. Both strings are freed.
unfoldable pub restore : HashTable → Bytes → Bytes → ℤ → Bytes → Run Loaded
restore table key value expires_at file = do
  expired ← entry_is_expired (record { key = key; value = value; expires_at = expires_at })
  if expired then (do free; free; pure (next table file)) else do
    (stored, table') ← hash_table_set_with_expiry table key value expires_at
    free
    free
    pure (if stored then next table' file else stopped table')

unfoldable pub load_set : HashTable → Bytes → Run Loaded
load_set table file = do
  key ← read_string file
  elim key [
    | none ↦ pure (stopped table)
    | some (key', after_key) ↦ do
      value ← read_string after_key
      elim value [
        | none ↦ (do free; pure (stopped table))
        | some (value', after_value) ↦ elim (read_expiry after_value) [
          | none ↦ (do free; free; pure (stopped table))
          | some (expires_at, after_line) ↦ restore table key' value' expires_at after_line
        ]
      ]
  ]

unfoldable pub load_del : HashTable → Bytes → Run Loaded
load_del table file = do
  key ← read_string file
  elim key [
    | none ↦ pure (stopped table)
    | some (key', after_key) ↦ do
      (deleted, table') ← hash_table_delete table key'
      free
      pure (elim (expect 10 after_key) [
        | none ↦ stopped table'
        | some after_line ↦ next table' after_line
      ])
  ]

-- One line, whose command word has been read.
unfoldable pub load_line : HashTable → Bytes → Bytes → Run Loaded
load_line table command file =
    if str_eq command (codes "SET")
    then load_set table file
    else if str_eq command (codes "DEL")
    then load_del table file
    else pure (stopped table)

-- The loop, with fuel above the number of bytes that are left. `none` is a loop that has not come to
-- its end.
unfoldable pub load_lines : ℕ → HashTable → Bytes → Run (Option (Bool × HashTable))
load_lines zero table file = pure none
load_lines (suc fuel) table file = elim (scan_word 3 file) [
  | none ↦ pure (some (true, table))
  | some (command, after_word) ↦ do
    line ← load_line table command after_word
    elim line [
      | stopped table' ↦ pure (some (false, table'))
      | next table' file' ↦ load_lines fuel table' file'
    ]
]

-- `fopen(AOF_FILE, "r")`
unfoldable pub fopen_read : Run (Option Bytes)
unfolding io_call
fopen_read w = let (opened, w') = io_call w in (if opened then w.aof else none, w')

-- Each way out of the loop closes the file once, and does not look at the answer.
unfoldable pub persistence_load : HashTable → Run (Bool × HashTable)
unfolding fopen_read io_call
persistence_load table = do
  file ← fopen_read
  elim file [
    | none ↦ pure (true, table)
    | some bytes ↦ do
      result ← load_lines (suc (length bytes)) table bytes
      io_call
      pure (elim result [ none ↦ (false, table) | some ended ↦ ended ])
  ]

-- `fopen("data.aof.tmp", "w")`
unfoldable pub fopen_tmp : Run Bool
unfolding io_call
fopen_tmp w =
    let (opened, w') = io_call w in (opened, if opened then record w' { tmp = some [] } else w')

unfoldable pub fclose_tmp : Bytes → Run Bool
unfolding io_call
fclose_tmp pending w =
    let (closed, w') = io_call w in
    (closed, record w' { tmp = some (if closed then pending else take (w.torn 0) pending) })

-- `rename("data.aof.tmp", AOF_FILE)`
unfoldable pub rename_tmp : Run Bool
unfolding io_call
rename_tmp w =
    let (renamed, w') = io_call w in
    (renamed, if renamed then record w' { aof = w.tmp; tmp = none } else w')

-- The entries of one chain that have not expired are printed; `false` for the early `return 0`.
unfoldable pub rewrite_chain : List Entry → Bytes → Run (Bool × Bytes)
rewrite_chain [] pending = pure (true, pending)
rewrite_chain (entry ∷ rest) pending = do
  expired ← entry_is_expired entry
  if expired then rewrite_chain rest pending else do
    (result, pending') ← fprintf pending (set_line entry.key entry.value entry.expires_at)
    if not result then pure (false, pending') else rewrite_chain rest pending'

unfoldable pub rewrite_buckets : List (List Entry) → Bytes → Run (Bool × Bytes)
rewrite_buckets [] pending = pure (true, pending)
rewrite_buckets (chain ∷ rest) pending = do
  (result, pending') ← rewrite_chain chain pending
  if not result then pure (false, pending') else rewrite_buckets rest pending'

unfoldable pub persistence_rewrite : HashTable → Run Bool
persistence_rewrite table = do
  file ← fopen_tmp
  if not file then pure false else do
    (result, pending) ← rewrite_buckets table.buckets []
    if not result
        then (do fclose_tmp pending; pure false)
        else do closed ← fclose_tmp pending; if not closed then pure false else rename_tmp
