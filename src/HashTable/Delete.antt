-- ===== src/HashTable/Delete.antt =====
-- `hash_table_delete`.
use in_mem_db.Base.{
  Bytes, ◌≡◌, ◌+◌, ◌*◌, ◌%◌, ◌-◌, ◌∙◌, if◌then◌else◌, arith, refl, some, none, true, false, Bool,
  ◌≤◌, str_eq, Option-cases, inl, ◌<◌, str_eq→eq, inr, ◌⊎◌,
}
use in_mem_db.World.{World, free}
use in_mem_db.Entry.{Entry, entry_destroy}
use in_mem_db.HashTable.{HashTable, word, unlink, hash_key, chain_of, set_chain, hash_table_delete}
use in_mem_db.HashTable.Chain.{find_in_chain-unlink, unlink-Distinct, length-unlink}
use in_mem_db.HashTable.Placed.{unlink-Homed, length-flatten-set}
use in_mem_db.HashTable.Valid.{
  lookup, lookup_home, apart, Holds-IsValid, entries, IsValid, SameOutside, set_chain-Holds,
  chain_of-Homed, inside,
}

-- What a deletion leaves. The key's entry goes, and with it its three blocks.
pub record DeleteResult (t : HashTable) (k : Bytes) (w : World) (r : (Bool × HashTable) × World)
    : Type 0 where
  pub valid : IsValid r.0.1
  pub reads : (q : Bytes) → lookup r.0.1 q ≡ (if str_eq k q then none else lookup t q)
  pub outcome :
      ((r.0.0 ≡ true) × (entries r.0.1 + 1 ≡ entries t))
      ⊎ ((r.0.0 ≡ false) × (r.0.1 ≡ t) × (lookup t k ≡ none))
  pub owned : r.1.live + 3 * entries t ≡ w.live + 3 * entries r.0.1
  pub heap : r.1.heap ≡ w.heap
  pub outside : SameOutside w r.1

pub absent :
    (t : HashTable) (k : Bytes) (w : World) (r : (Bool × HashTable) × World)
    → DeleteResult t k w r
    → r.0.0 ≡ false
    → lookup t k ≡ none
absent t k w r d h = elim d.outcome [
  | inl (done, less) ↦ absurd (cc)
  | inr (kept, same, none_there) ↦ none_there
]

module _ (t : HashTable) (k : Bytes) (w : World) where
  abbrev shorter : HashTable
  shorter = record t {
    buckets = set_chain t k (unlink k (chain_of t k));
    count = (t.count + word - 1) % word;
  }

  delete_found :
      (old : Entry)
      → lookup t k ≡ some old
      → hash_table_delete t k w ≡ ((true, shorter), record w { live = w.live - 1 - 1 - 1 })
  unfolding hash_table_delete lookup entry_destroy free
  delete_found old h = rw (h, hash_table_delete)

  delete_absent : lookup t k ≡ none → hash_table_delete t k w ≡ ((false, t), w)
  unfolding hash_table_delete lookup
  delete_absent h = rw (h, hash_table_delete)

  shorter-IsValid :
      (old : Entry)
      → IsValid t
      → lookup t k ≡ some old
      → IsValid shorter
        × (entries shorter + 1 ≡ entries t)
        × ((q : Bytes) → lookup shorter q ≡ (if str_eq k q then none else lookup t q))
  unfolding lookup chain_of
  shorter-IsValid old valid h =
      let (homed, distinct) = chain_of-Homed t k valid in
      let less = length-unlink k (chain_of t k) h in
      let stay =
        length-flatten-set t.buckets (hash_key k % t.size) (unlink k (chain_of t k))
          (inside t valid k (chain_of t k)) in
      let some_entry : 0 < entries t = omega (arith, less, stay) in
      let made : IsValid shorter
          × (entries shorter ≡ entries t - 1)
          × ((q : Bytes) → lookup shorter q ≡ (if str_eq k q then none else lookup t q)) =
        Holds-IsValid (entries t - 1) _ shorter valid.sized (rw valid.counted (omega arith)) (
          set_chain-Holds t valid k (unlink k (chain_of t k)) _ (entries t - 1)
            (omega (arith, less)) (unlink-Homed _ _ k (chain_of t k) homed)
            (unlink-Distinct k (chain_of t k) distinct)
            (λ q at.
              find_in_chain-unlink k q (chain_of t k) distinct
              ∙ ground (arith, lookup_home t k q at))
            (λ q away. rw (apart t k q away))) in
      (made.0, rw made.1 (omega arith), made.2)

  -- DEL on a valid table whose blocks are allocated keeps the invariant; the key is gone and every other key as before; a
  -- missing key changes nothing; and the blocks of the entry are given back.
  pub hash_table_delete-DeleteResult :
      IsValid t → 3 * entries t ≤ w.live → DeleteResult t k w (hash_table_delete t k w)
  hash_table_delete-DeleteResult valid owns = elim (Option-cases (lookup t k)) [
    | inl none_there ↦ rw (delete_absent none_there) (record {
      valid = valid;
      reads = λ q. ground (arith, str_eq→eq k q, none_there);
      outcome = inr (refl, refl, none_there);
      owned = refl;
      heap = refl;
      outside = ground arith;
    })
    | inr (old, there) ↦
        let (v, n, reads) = shorter-IsValid old valid there in
        rw (delete_found old there) (record {
          valid = v;
          reads = reads;
          outcome = inl (refl, n);
          owned = omega (arith, n);
          heap = refl;
          outside = ground arith;
        })
  ]
