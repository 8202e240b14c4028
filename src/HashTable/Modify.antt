-- ===== src/HashTable/Modify.antt =====
-- Writing through the pointer to an entry that a walk has found.
use in_mem_db.Base.{Bytes, ◌≡◌, ◌∙◌, ap, sym, if◌then◌else◌, str_eq, some, Option, arith}
use in_mem_db.Entry.{Entry}
use in_mem_db.HashTable.{HashTable, find_in_chain, modify_in_chain, chain_of, set_chain}
use in_mem_db.HashTable.Chain.{
  find_in_chain-modify, modify_in_chain-Distinct, length-modify_in_chain,
}
use in_mem_db.HashTable.Placed.{modify_in_chain-Homed}
use in_mem_db.HashTable.Valid.{
  lookup, lookup_home, apart, Holds-IsValid, entries, IsValid, set_chain-Holds, chain_of-Homed,
}

module _ (t : HashTable) (k : Bytes) (f : Entry → Entry)
    (keeps : (x : Entry) → (f x).key ≡ x.key) where
  abbrev modified : HashTable
  modified = record t { buckets = set_chain t k (modify_in_chain k f (chain_of t k)) }

  lookup_same :
      (old : Entry)
      → lookup t k ≡ some old
      → (q : Bytes)
      → find_in_chain q (modify_in_chain k f (chain_of t k))
        ≡ (if str_eq k q then some (f old) else find_in_chain q (chain_of t k))
  unfolding lookup
  lookup_same old h q = find_in_chain-modify f keeps k q (chain_of t k) old h

  -- The entry under the key is the new one, and nothing else has changed.
  pub modified-IsValid :
      IsValid t
      → (old : Entry) → lookup t k ≡ some old
      → IsValid modified
        × (entries modified ≡ entries t)
        × ((q : Bytes) → lookup modified q ≡ (if str_eq k q then some (f old) else lookup t q))
  modified-IsValid valid old h =
      let (homed, distinct) = chain_of-Homed t k valid in
      Holds-IsValid (entries t) _ modified valid.sized valid.counted (
        set_chain-Holds t valid k (modify_in_chain k f (chain_of t k)) _ (entries t)
          (omega (arith, length-modify_in_chain k f (chain_of t k)))
          (modify_in_chain-Homed _ _ k f (chain_of t k) keeps homed)
          (modify_in_chain-Distinct f keeps k (chain_of t k) distinct)
          (λ q at.
            lookup_same old h q
            ∙ ap (λ (o : Option Entry). if str_eq k q then some (f old) else o)
                (sym (lookup_home t k q at)))
          (λ q away. rw (apart t k q away)))
