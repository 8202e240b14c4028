-- ===== src/HashTable/Valid.antt =====
-- The invariant of a table, what a lookup finds, and `hash_table_resize`.
use mathlib.Core.List.{flatten}
use in_mem_db.Base.{
  ℕ, zero, suc, ◌+◌, ◌%◌, ◌<◌, ◌≡◌, ◌≢◌, refl, ap, ◌∙◌, Bool, true, false, Option, none, some, List,
  [], Bytes, arith, if◌then◌else◌, length, get_or, set, length-set, Bool-cases, length-replicate,
  replicate, get_or-replicate, inl, inr, str_eq, str_eq→eq, ◌⊎◌, ◌&&◌,
}
use in_mem_db.World.{World, ahead, malloc, free}
use in_mem_db.Entry.{Entry}
use in_mem_db.HashTable.{
  HashTable, word, find_in_chain, hash_key, index_of, chain_of, set_chain, hash_table_create,
  hash_table_resize, move_buckets,
}
use in_mem_db.HashTable.Chain.{Distinct}
use in_mem_db.HashTable.Placed.{
  Homed, PlacedFrom, set-PlacedFrom, length-flatten-set, replicate-PlacedFrom, flatten-replicate,
}
use in_mem_db.HashTable.Resize.{read, read-set, Holds, move_buckets-Holds}

-- The entry under a key, expired or not.
unfoldable pub lookup : HashTable → Bytes → Option Entry
lookup t q = find_in_chain q (chain_of t q)

-- The number of entries in the buckets.
abbrev pub entries : HashTable → ℕ
entries t = length (flatten t.buckets)

pub record IsValid (t : HashTable) : Type 0 where
  pub sized : 0 < t.size
  pub width : length t.buckets ≡ t.size
  pub placed : PlacedFrom t.size 0 t.buckets
  pub counted : t.count ≡ entries t % word

-- The heap and the count of live blocks may differ, all else is the same.
pub record SameOutside (w w' : World) : Type 0 where
  pub clock : w'.clock ≡ w.clock
  pub io : w'.io ≡ w.io
  pub torn : w'.torn ≡ w.torn
  pub aof : w'.aof ≡ w.aof
  pub tmp : w'.tmp ≡ w.tmp

pub lookup-read : (t : HashTable) (q : Bytes) → lookup t q ≡ read t.size t.buckets q
unfolding lookup chain_of
lookup-read t q = refl

-- Keys with one home share a chain, and keys with two homes differ.
pub lookup_home :
    (t : HashTable) (k q : Bytes)
    → hash_key q % t.size ≡ hash_key k % t.size
    → lookup t q ≡ find_in_chain q (chain_of t k)
unfolding lookup chain_of
lookup_home t k q e = ap (λ (i : ℕ). find_in_chain q (get_or t.buckets i [])) e

pub apart :
    (t : HashTable) (k q : Bytes) → hash_key q % t.size ≢ hash_key k % t.size → str_eq k q ≡ false
apart t k q ne = ground (arith, str_eq→eq k q)

-- A table that holds what its buckets hold is valid.
pub Holds-IsValid :
    (m : ℕ) (f : Bytes → Option Entry) (t : HashTable)
    → 0 < t.size
    → t.count ≡ m % word
    → Holds t.size m f t.buckets
    → IsValid t × (entries t ≡ m) × ((q : Bytes) → lookup t q ≡ f q)
Holds-IsValid m f t pos counted h = (
  record { sized = pos; width = h.width; placed = h.placed; counted = rw h.entries counted },
  h.entries,
  λ q. lookup-read t q ∙ h.reads q,
)

-- A chain written back to its bucket.
module _ (t : HashTable) (valid : IsValid t) (k : Bytes) (c : List Entry) where
  pub inside : hash_key k % t.size < length t.buckets
  inside = rw valid.width (omega (arith, valid.sized))

  pub set_chain-Holds :
      (f : Bytes → Option Entry) (total : ℕ)
      → total + length (chain_of t k) ≡ entries t + length c
      → Homed t.size (hash_key k % t.size) c
      → Distinct c
      → ((q : Bytes) → hash_key q % t.size ≡ hash_key k % t.size → find_in_chain q c ≡ f q)
      → ((q : Bytes) → hash_key q % t.size ≢ hash_key k % t.size → lookup t q ≡ f q)
      → Holds t.size total f (set_chain t k c)
  unfolding set_chain chain_of lookup
  set_chain-Holds f total size homed distinct same other = record {
    width = unfold set_chain in width-set;
    entries = omega (arith, length-flatten-set t.buckets (hash_key k % t.size) c inside, size);
    placed = set-PlacedFrom t.size t.buckets _ c inside valid.placed homed distinct;
    reads = read-set t.size t.buckets k c f inside same other;
  }
    where
      width-set : length (set t.buckets (hash_key k % t.size) c) ≡ t.size
      width-set = length-set t.buckets _ c ∙ valid.width

-- The chain of a key is in place.
pub chain_of-Homed :
    (t : HashTable) (k : Bytes)
    → IsValid t
    → Homed t.size (hash_key k % t.size) (chain_of t k) × Distinct (chain_of t k)
unfolding chain_of
chain_of-Homed t k v = v.placed (hash_key k % t.size) (hash_key k % t.size) (omega arith)

abbrev pub fresh : ℕ → HashTable
fresh n = record { buckets = replicate n []; size = n; count = 0 }

pub fresh-IsValid : (n : ℕ) → 0 < n → IsValid (fresh n)
fresh-IsValid n pos = record {
  sized = pos;
  width = length-replicate n [];
  placed = replicate-PlacedFrom n n;
  counted = rw flatten-replicate (omega arith);
}

pub lookup-fresh : (n : ℕ) (q : Bytes) → lookup (fresh n) q ≡ none
unfolding lookup chain_of find_in_chain
lookup-fresh n q = rw (get_or-replicate {A = List Entry} n (index_of (fresh n) q) [])

-- Creating a table of at least one bucket: under a heap that grants two blocks it is valid and
-- empty, and owns them; otherwise there is no table, and no block is kept.
pub hash_table_create-IsValid :
    (n : ℕ) (w : World)
    → 0 < n
    → (((hash_table_create n w).0 ≡ some (fresh n))
        × IsValid (fresh n)
        × ((q : Bytes) → lookup (fresh n) q ≡ none)
        × ((hash_table_create n w).1.live ≡ w.live + 2))
      ⊎ ((w.heap 0 && w.heap 1 ≡ false)
          × ((hash_table_create n w).0 ≡ none)
          × ((hash_table_create n w).1.live ≡ w.live))
unfolding hash_table_create malloc free
hash_table_create-IsValid n w some_bucket = elim (Bool-cases (w.heap 0 && w.heap 1)) [
  | inl granted ↦
      let a : w.heap 0 ≡ true = ground arith in
      let b : w.heap 1 ≡ true = ground arith in
      inl (ground arith, fresh-IsValid n some_bucket, lookup-fresh n, ground arith)
  | inr denied ↦ inr (denied, ground arith, ground arith)
]

-- What a resize leaves, whether it was refused or done.
pub record Resized (t : HashTable) (n : ℕ) (w : World) (r : (Bool × HashTable) × World)
    : Type 0 where
  pub valid : IsValid r.0.1
  pub entries : entries r.0.1 ≡ entries t
  pub reads : (q : Bytes) → lookup r.0.1 q ≡ lookup t q
  pub size : r.0.1.size ≡ (if r.0.0 then n else t.size)
  pub live : r.1.live ≡ w.live
  pub outside : SameOutside w r.1

abbrev moved : HashTable → ℕ → HashTable
moved t n = record t { buckets = move_buckets n t.buckets (replicate n []); size = n }

resize_done :
    (t : HashTable) (n : ℕ) (w : World)
    → 0 < n
    → w.heap 0 ≡ true
    → hash_table_resize t n w ≡ ((true, moved t n), record w { heap = ahead w.heap })
unfolding hash_table_resize malloc free
resize_done t n w pos h = ground arith

resize_refused :
    (t : HashTable) (n : ℕ) (w : World)
    → w.heap 0 ≡ false
    → (hash_table_resize t (suc n) w) ≡ ((false, t), record w { heap = ahead w.heap })
unfolding hash_table_resize malloc
resize_refused t n w h = ground arith

moved-IsValid :
    (t : HashTable) (n : ℕ)
    → 0 < n
    → IsValid t
    → IsValid (moved t n)
      × (entries (moved t n) ≡ entries t)
      × ((q : Bytes) → lookup (moved t n) q ≡ lookup t q)
unfolding lookup chain_of
moved-IsValid t n pos v =
    let h = move_buckets-Holds n pos t.size t.buckets v.sized v.placed in
    (
      record { sized = pos; width = h.width; placed = h.placed; counted = rw h.entries v.counted },
      h.entries,
      h.reads,
    )

-- A resize of a valid table keeps the invariant, loses no entry and no lookup, and takes no block in the end. The old array stays when
-- the new size is 0 or the allocation fails.
pub hash_table_resize-Resized :
    (t : HashTable) (n : ℕ) (w : World) → IsValid t → Resized t n w (hash_table_resize t n w)
hash_table_resize-Resized t zero w v =
    unfold hash_table_resize in
    (record {
      valid = v;
      entries = refl;
      reads = λ q. refl;
      size = refl;
      live = refl;
      outside = ground arith;
    })
hash_table_resize-Resized t (suc n) w v = elim (Bool-cases (w.heap 0)) [
  | inl granted ↦
      let (valid, entries, reads) = moved-IsValid t (suc n) (omega arith) v in
      rw (resize_done t (suc n) w (omega arith) granted) (record {
        valid = valid;
        entries = entries;
        reads = reads;
        size = refl;
        live = refl;
        outside = ground arith;
      })
  | inr refused ↦ rw (resize_refused t n w refused) (record {
    valid = v;
    entries = refl;
    reads = λ q. refl;
    size = refl;
    live = refl;
    outside = ground arith;
  })
]
