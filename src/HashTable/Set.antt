-- ===== src/HashTable/Set.antt =====
-- `hash_table_set_with_expiry` on every branch: replaced, inserted, grown, or refused by the heap.
use in_mem_db.Base.{
  Bytes, ℤ, ◌≡◌, ◌+◌, ◌*◌, ◌%◌, ◌&&◌, ◌∷◌, ◌∙◌, if◌then◌else◌, arith, refl, some, none, true, false,
  ℕ, Bool, str_eq, Bool-cases, inl, inr, Option-cases, suc, ◌⊎◌,
}
use in_mem_db.World.{World, ahead, malloc, free}
use in_mem_db.Entry.{Entry, entry_set_expiry_at}
use in_mem_db.HashTable.{
  HashTable, word, find_in_chain, modify_in_chain, chain_of, set_chain, replace_value, insert_entry,
  grow, over_loaded, hash_table_set_with_expiry, hash_table_resize, resize_factor,
}
use in_mem_db.HashTable.Chain.{find_in_chain-key}
use in_mem_db.HashTable.Modify.{modified-IsValid}
use in_mem_db.HashTable.Valid.{
  lookup, lookup_home, apart, Holds-IsValid, entries, IsValid, SameOutside, set_chain-Holds,
  chain_of-Homed, hash_table_resize-Resized,
}

-- The table that has the value of `hash_table_set_with_expiry` under `k` and is `t` elsewhere.
abbrev pub stored : Bytes → Bytes → ℤ → Entry
stored k v e = record { key = k; value = v; expires_at = e }

-- What a SET leaves. An entry owns three blocks.
pub record SetResult (t : HashTable) (k v : Bytes) (e : ℤ) (w : World)
    (r : (Bool × HashTable) × World) : Type 0 where
  pub valid : IsValid r.0.1
  pub reads :
      (q : Bytes)
      → lookup r.0.1 q ≡ (if r.0.0 && str_eq k q then some (stored k v e) else lookup t q)
  pub refused : (r.0.0 ≡ true) ⊎ (r.0.1 ≡ t)
  pub owned : r.1.live + 3 * entries t ≡ w.live + 3 * entries r.0.1
  pub outside : SameOutside w r.1

module _ (t : HashTable) (k v : Bytes) (e : ℤ) where
  abbrev write : Entry → Entry
  write entry = entry_set_expiry_at (record entry { value = v }) e

  abbrev replaced : HashTable
  replaced = record t { buckets = set_chain t k (modify_in_chain k write (chain_of t k)) }

  abbrev added : HashTable
  added = record t {
    buckets = set_chain t k (stored k v e ∷ chain_of t k);
    count = (t.count + 1) % word;
  }

  write-stored : (old : Entry) → lookup t k ≡ some old → write old ≡ stored k v e
  unfolding entry_set_expiry_at lookup
  write-stored old h = rw (find_in_chain-key k (chain_of t k) h)

  write_keeps : (x : Entry) → (write x).key ≡ x.key
  unfolding entry_set_expiry_at
  write_keeps x = refl

  replaced-IsValid :
      IsValid t
      → (old : Entry) → lookup t k ≡ some old
      → IsValid replaced
        × (entries replaced ≡ entries t)
        × ((q : Bytes)
            → lookup replaced q ≡ (if str_eq k q then some (stored k v e) else lookup t q))
  replaced-IsValid valid old h =
      let (valid', same, reads) = modified-IsValid t k write write_keeps valid old h in
      (valid', same, λ q. rw (write-stored old h) at reads q)

  added-IsValid :
      IsValid t
      → lookup t k ≡ none
      → IsValid added
        × (entries added ≡ entries t + 1)
        × ((q : Bytes) → lookup added q ≡ (if str_eq k q then some (stored k v e) else lookup t q))
  unfolding lookup find_in_chain
  added-IsValid valid h =
      let (homed, distinct) = chain_of-Homed t k valid in
      Holds-IsValid (entries t + 1) _ added valid.sized (rw valid.counted (omega arith)) (
        set_chain-Holds t valid k (stored k v e ∷ chain_of t k) _ (entries t + 1) (omega arith)
          (refl, homed) (h, distinct) (λ q at. ground (arith, lookup_home t k q at))
          (λ q away. rw (apart t k q away)))

-- The test of the load factor changes no lookup, whatever the heap answers.
pub record Grown (t : HashTable) (w : World) (r : HashTable × World) : Type 0 where
  pub valid : IsValid r.0
  pub entries : entries r.0 ≡ entries t
  pub reads : (q : Bytes) → lookup r.0 q ≡ lookup t q
  pub live : r.1.live ≡ w.live
  pub outside : SameOutside w r.1

grow-Grown : (t : HashTable) (w : World) → IsValid t → Grown t w (grow t w)
unfolding grow
grow-Grown t w v = elim (Bool-cases (over_loaded t.count t.size)) [
  | inl over ↦
      let r = hash_table_resize-Resized t (t.size * resize_factor % word) w v in
      rw over (record {
        valid = r.valid;
        entries = r.entries;
        reads = r.reads;
        live = r.live;
        outside = r.outside;
      })
  | inr fits ↦
      rw fits (record {
        valid = v;
        entries = refl;
        reads = λ q. refl;
        live = refl;
        outside = ground arith;
      })
]

module _ (t : HashTable) (k v : Bytes) (e : ℤ) (w : World) where
  -- the worlds after the first and the third allocation
  abbrev after_one : World
  after_one = record w { heap = ahead w.heap; live = w.live + 1 }

  abbrev after_three : World
  after_three = record w { heap = ahead (ahead (ahead w.heap)); live = w.live + 1 + 1 + 1 }

  replace_done :
      w.heap 0 ≡ true
      → replace_value t k v e w ≡ ((true, replaced t k v e), record w { heap = ahead w.heap })
  unfolding replace_value malloc free
  replace_done h = ground arith

  replace_refused :
      w.heap 0 ≡ false → replace_value t k v e w ≡ ((false, t), record w { heap = ahead w.heap })
  unfolding replace_value malloc free
  replace_refused h = ground arith

  insert_done :
      w.heap 0 ≡ true
      → w.heap 1 ≡ true
      → w.heap 2 ≡ true
      → insert_entry t k v e w
        ≡ ((true, (grow (added t k v e) after_three).0), (grow (added t k v e) after_three).1)
  unfolding insert_entry malloc free
  insert_done a b c = ground arith

  insert_refused :
      w.heap 0 && (w.heap 1 && w.heap 2) ≡ false
      → ((insert_entry t k v e w).0 ≡ (false, t))
        × ((insert_entry t k v e w).1.live ≡ w.live)
        × SameOutside w (insert_entry t k v e w).1
  unfolding insert_entry malloc free
  insert_refused h = ground arith

-- A refused SET leaves the table as it was.
refused-SetResult :
    (t : HashTable) (k v : Bytes) (e : ℤ) (w : World) (r : (Bool × HashTable) × World)
    → IsValid t
    → r.0 ≡ (false, t)
    → r.1.live ≡ w.live
    → SameOutside w r.1
    → SetResult t k v e w r
refused-SetResult t k v e w r valid same live outside = record {
  valid = rw same valid;
  reads = λ q. rw same;
  refused = inr (rw same);
  owned = rw (same, live);
  outside = outside;
}

module _ (t : HashTable) (k v : Bytes) (e : ℤ) (w : World) (valid : IsValid t) where
  replace_value-SetResult :
      (old : Entry) → lookup t k ≡ some old → SetResult t k v e w (replace_value t k v e w)
  replace_value-SetResult old h = elim (Bool-cases (w.heap 0)) [
    | inl granted ↦
        let (valid', same, reads) = replaced-IsValid t k v e valid old h in
        rw (replace_done t k v e w granted) (record {
          valid = valid';
          reads = reads;
          refused = inl refl;
          owned = omega (arith, same);
          outside = ground arith;
        })
    | inr denied ↦
        rw (replace_refused t k v e w denied)
          (refused-SetResult t k v e w _ valid refl refl (ground arith))
  ]

  insert_entry-SetResult : lookup t k ≡ none → SetResult t k v e w (insert_entry t k v e w)
  insert_entry-SetResult h = elim (Bool-cases (w.heap 0 && (w.heap 1 && w.heap 2))) [
    | inl granted ↦
        let (valid', more, reads) = added-IsValid t k v e valid h in
        let g = grow-Grown (added t k v e) (after_three t k v e w) valid' in
        rw (insert_done t k v e w (ground arith) (ground arith) (ground arith)) (record {
          valid = g.valid;
          reads = λ q. g.reads q ∙ reads q;
          refused = inl refl;
          owned = omega (arith, g.entries, g.live, more);
          outside = record {
            clock = g.outside.clock;
            io = g.outside.io;
            torn = g.outside.torn;
            aof = g.outside.aof;
            tmp = g.outside.tmp;
          };
        })
    | inr denied ↦
        let (same, live, outside) = insert_refused t k v e w denied in
        refused-SetResult t k v e w _ valid same live outside
  ]

  -- SET on a valid table: it keeps the invariant; if it succeeds the key has the new value and
  -- expiry and every other key what it had, and if not the table is unchanged; the live blocks grow
  -- by three for each new entry; and nothing but the heap is touched.
  pub hash_table_set_with_expiry-SetResult :
      SetResult t k v e w (hash_table_set_with_expiry t k v e w)
  unfolding hash_table_set_with_expiry lookup
  hash_table_set_with_expiry-SetResult = elim (Option-cases (lookup t k)) [
    | inl absent ↦ rw (absent, hash_table_set_with_expiry) (insert_entry-SetResult absent)
    | inr (old, found) ↦ rw (found, hash_table_set_with_expiry) (replace_value-SetResult old found)
  ]

-- SET succeeds whenever the heap grants the next three blocks, also where the resize then fails.
pub hash_table_set_with_expiry-succeeds :
    (t : HashTable) (k v : Bytes) (e : ℤ) (w : World)
    → w.heap 0 ≡ true
    → w.heap 1 ≡ true
    → w.heap 2 ≡ true
    → (hash_table_set_with_expiry t k v e w).0.0 ≡ true
unfolding hash_table_set_with_expiry
hash_table_set_with_expiry-succeeds t k v e w a b c =
    elim (Option-cases (find_in_chain k (chain_of t k))) [
      | inl absent ↦ rw (absent, hash_table_set_with_expiry) (rw (insert_done t k v e w a b c))
      | inr (old, found) ↦ rw (found, hash_table_set_with_expiry) (rw (replace_done t k v e w a))
    ]

-- The heap grants every block from now on.
abbrev pub Granting : World → Type 0
Granting w = (n : ℕ) → w.heap n ≡ true

grow-Granting : (t : HashTable) (w : World) → Granting w → Granting (grow t w).1
unfolding grow hash_table_resize malloc free
grow-Granting t w h n = ground (arith, h 0, h n, h (suc n))

-- Under a heap that grants every block SET succeeds, and the heap still does.
pub hash_table_set_with_expiry-Granting :
    (t : HashTable) (k v : Bytes) (e : ℤ) (w : World)
    → Granting w
    → ((hash_table_set_with_expiry t k v e w).0.0 ≡ true)
      × Granting (hash_table_set_with_expiry t k v e w).1
unfolding hash_table_set_with_expiry
hash_table_set_with_expiry-Granting t k v e w h =
    elim (Option-cases (find_in_chain k (chain_of t k))) [
      | inl absent ↦
          rw (absent, hash_table_set_with_expiry, insert_done t k v e w (h 0) (h 1) (h 2))
            (
              refl,
              grow-Granting (added t k v e) (after_three t k v e w) (λ n. h (suc (suc (suc n)))),
            )
      | inr (old, found) ↦
          rw (found, hash_table_set_with_expiry, replace_done t k v e w (h 0))
            (refl, λ n. h (suc n))
    ]
