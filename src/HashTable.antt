-- ===== src/HashTable.antt =====
-- include/hash_table.h and src/hash_table.c. A chain is the list of its entries, and a pointer into
-- a chain is the key of the entry that it points at. Table and string arguments are values, so the
-- tests for null pointers have no counterpart.
pub mod Chain
pub mod Placed
pub mod Resize
pub mod Valid
pub mod Modify
pub mod Set
pub mod Delete
pub mod Reads
pub mod Destroy
use in_mem_db.Base.{
  ℕ, ◌+◌, ◌-◌, ◌*◌, ◌%◌, ◌^◌, Bool, true, false, not, Option, none, some, List, [], ◌∷◌, Bytes, ℤ,
  pos, negsuc, sub64, leb_ℤ, is_zero, ltb, ◌==◌, if◌then◌else◌, str_eq, get_or, set, replicate,
}
use in_mem_db.World.{Run, ◌>>=◌, ◌>>◌, pure, malloc, free, time}
use in_mem_db.Entry.{Entry, entry_destroy, entry_set_expiry_at, entry_is_expired}

pub record HashTable : Type 0 where
  pub buckets : List (List Entry)
  pub size : ℕ
  pub count : ℕ

abbrev pub word : ℕ
word = 2 ^ 64

-- `table->size * RESIZE_FACTOR`, and `count / size > LOAD_FACTOR`. The quotient of doubles compares
-- as the exact one does as long as both numbers are below 2 ^ 52.
abbrev pub resize_factor : ℕ
resize_factor = 2

unfoldable pub over_loaded : ℕ → ℕ → Bool
over_loaded count size = ltb (3 * size) (4 * count)

unfoldable pub hash_table_create : ℕ → Run (Option HashTable)
hash_table_create size = do
  table ← malloc
  if not table then pure none else do
    buckets ← malloc
    if not buckets
        then (do free; pure none)
        else pure (some (record { buckets = replicate size []; size = size; count = 0 }))

unfoldable pub destroy_chain : List Entry → Run (Unit {0})
destroy_chain [] = pure tt
destroy_chain (entry ∷ next) = do entry_destroy entry; destroy_chain next

unfoldable pub destroy_buckets : List (List Entry) → Run (Unit {0})
destroy_buckets [] = pure tt
destroy_buckets (chain ∷ rest) = do destroy_chain chain; destroy_buckets rest

unfoldable pub hash_table_destroy : HashTable → Run (Unit {0})
hash_table_destroy table = do destroy_buckets table.buckets; free; free

hash_from : ℕ → Bytes → ℕ
hash_from hash [] = hash
hash_from hash (c ∷ key) = hash_from ((hash * 31 + c) % word) key

unfoldable pub hash_key : Bytes → ℕ
unfolding hash_from
hash_key key = hash_from 0 key

unfoldable pub index_of : HashTable → Bytes → ℕ
index_of table key = hash_key key % table.size

-- The walk along a chain with `strcmp`, and what is done at the entry that it stops at.
unfoldable pub find_in_chain : Bytes → List Entry → Option Entry
find_in_chain key [] = none
find_in_chain key (entry ∷ next) =
    if str_eq entry.key key then some entry else find_in_chain key next

unfoldable pub modify_in_chain : Bytes → (Entry → Entry) → List Entry → List Entry
modify_in_chain key f [] = []
modify_in_chain key f (entry ∷ next) =
    if str_eq entry.key key then f entry ∷ next else entry ∷ modify_in_chain key f next

-- `current` is cut out of the list, at its head or behind `previous`.
unfoldable pub unlink : Bytes → List Entry → List Entry
unlink key [] = []
unlink key (current ∷ next) = if str_eq current.key key then next else current ∷ unlink key next

-- The chain that a key belongs to, and a write to it.
unfoldable pub chain_of : HashTable → Bytes → List Entry
unfolding index_of
chain_of table key = get_or table.buckets (index_of table key) []

unfoldable pub set_chain : HashTable → Bytes → List Entry → List (List Entry)
unfolding index_of
set_chain table key chain = set table.buckets (index_of table key) chain

-- Each entry goes to the front of its new chain.
unfoldable pub move_chain : ℕ → List Entry → List (List Entry) → List (List Entry)
move_chain new_size [] new_buckets = new_buckets
move_chain new_size (entry ∷ next) new_buckets =
    let new_index = hash_key entry.key % new_size in
    move_chain new_size next (set new_buckets new_index (entry ∷ get_or new_buckets new_index []))

unfoldable pub move_buckets : ℕ → List (List Entry) → List (List Entry) → List (List Entry)
move_buckets new_size [] new_buckets = new_buckets
move_buckets new_size (chain ∷ rest) new_buckets =
    move_buckets new_size rest (move_chain new_size chain new_buckets)

unfoldable pub hash_table_resize : HashTable → ℕ → Run (Bool × HashTable)
hash_table_resize table new_size = if new_size == 0 then pure (false, table) else do
  granted ← malloc
  if not granted then pure (false, table) else do
    let new_buckets = move_buckets new_size table.buckets (replicate new_size [])
    free
    pure (true, record table { buckets = new_buckets; size = new_size })

-- The branch of SET on a key that is there.
unfoldable pub replace_value : HashTable → Bytes → Bytes → ℤ → Run (Bool × HashTable)
replace_value table key value expires_at = do
  new_value ← malloc
  if not new_value then pure (false, table) else do
    free
    let write = λ (entry : Entry). entry_set_expiry_at (record entry { value = value }) expires_at
    let chain = modify_in_chain key write (chain_of table key)
    pure (true, record table { buckets = set_chain table key chain })

-- The test of the load factor; the result of the resize is not looked at.
unfoldable pub grow : HashTable → Run HashTable
grow table =
    if over_loaded table.count table.size
    then (do (_, grown) ← hash_table_resize table (table.size * resize_factor % word); pure grown)
    else pure table

-- The branch of SET on a new key.
unfoldable pub insert_entry : HashTable → Bytes → Bytes → ℤ → Run (Bool × HashTable)
insert_entry table key value expires_at = do
  entry ← malloc
  if not entry then pure (false, table) else do
    key_block ← malloc
    if not key_block then (do free; pure (false, table)) else do
      value_block ← malloc
      if not value_block then (do free; free; pure (false, table)) else do
        let new : Entry = record { key = key; value = value; expires_at = expires_at }
        grown ← grow (record table {
          buckets = set_chain table key (new ∷ chain_of table key);
          count = (table.count + 1) % word;
        })
        pure (true, grown)

unfoldable pub hash_table_set_with_expiry : HashTable → Bytes → Bytes → ℤ → Run (Bool × HashTable)
hash_table_set_with_expiry table key value expires_at =
    elim (find_in_chain key (chain_of table key)) [
      | some entry ↦ replace_value table key value expires_at
      | none ↦ insert_entry table key value expires_at
    ]

unfoldable pub hash_table_set : HashTable → Bytes → Bytes → Run (Bool × HashTable)
hash_table_set table key value = hash_table_set_with_expiry table key value (pos 0)

unfoldable pub hash_table_get : HashTable → Bytes → Run (Option Bytes)
hash_table_get table key = elim (find_in_chain key (chain_of table key)) [
  | some entry ↦ do
    expired ← entry_is_expired entry
    pure (if expired then none else some entry.value)
  | none ↦ pure none
]

unfoldable pub hash_table_delete : HashTable → Bytes → Run (Bool × HashTable)
hash_table_delete table key = elim (find_in_chain key (chain_of table key)) [
  | some current ↦ do
    entry_destroy current
    pure (
      true,
      record table {
        buckets = set_chain table key (unlink key (chain_of table key));
        count = (table.count + word - 1) % word;
      },
    )
  | none ↦ pure (false, table)
]

unfoldable pub hash_table_ttl : HashTable → Bytes → Run ℤ
hash_table_ttl table key = elim (find_in_chain key (chain_of table key)) [
  | some entry ↦ if is_zero entry.expires_at then pure (negsuc 0) else do
    now ← time
    pure (if leb_ℤ entry.expires_at now then negsuc 1 else sub64 entry.expires_at now)
  | none ↦ pure (negsuc 1)
]
