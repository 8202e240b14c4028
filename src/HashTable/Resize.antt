-- ===== src/HashTable/Resize.antt =====
-- Moving every entry to a new array of buckets, as `hash_table_resize` does.
use mathlib.Core.List.{flatten}
use in_mem_db.Base.{
  ℕ, ◌+◌, ◌%◌, ◌<◌, ◌≡◌, ◌≢◌, ◌⊎◌, inr, refl, ap, ◌∙◌, sym, Option, none, some, List, [], ◌∷◌, ◌++◌,
  Bytes, arith, if◌then◌else◌, str_eq, str_eq→eq, str_eq_refl, length, get_or, set, length-set,
  get_or-set_self, get_or-set_ne, or_else, replicate, get_or-replicate, length-replicate,
}
use native.Mathlib.Decide.{ℕ_discrete}
use in_mem_db.Entry.{Entry}
use in_mem_db.HashTable.{find_in_chain, hash_key, move_chain, move_buckets}
use in_mem_db.HashTable.Chain.{Distinct}
use in_mem_db.HashTable.Placed.{
  PlacedFrom, find_in_chain-flatten, flatten-Distinct, set-PlacedFrom, length-flatten-set,
  replicate-PlacedFrom, flatten-replicate,
}

-- What a walk for `q` finds in an array of `n` buckets.
abbrev pub read : ℕ → List (List Entry) → Bytes → Option Entry
read n bs q = find_in_chain q (get_or bs (hash_key q % n) [])

-- The buckets `bs` of width `n` hold `total` entries, in place, and read as `f`.
pub record Holds (n total : ℕ) (f : Bytes → Option Entry) (bs : List (List Entry)) : Type 0 where
  pub width : length bs ≡ n
  pub entries : length (flatten bs) ≡ total
  pub placed : PlacedFrom n 0 bs
  pub reads : (q : Bytes) → read n bs q ≡ f q

-- Replacing the chain at the home of `k` by one that reads as `f` on the keys that live there.
module _ (n : ℕ) (bs : List (List Entry)) (k : Bytes) (c : List Entry) where
  abbrev home : ℕ
  home = hash_key k % n

  pub read-set :
      (f : Bytes → Option Entry)
      → home < length bs
      → ((q : Bytes) → hash_key q % n ≡ home → find_in_chain q c ≡ f q)
      → ((q : Bytes) → hash_key q % n ≢ home → read n bs q ≡ f q)
      → (q : Bytes) → read n (set bs home c) q ≡ f q
  read-set f inside same other q = elim (ℕ_discrete home (hash_key q % n)) [
    | yes e ↦ rw (← e, get_or-set_self bs home c [] inside) (same q (sym e))
    | no ne ↦ rw (get_or-set_ne bs home (hash_key q % n) c [] ne) (other q (λ e. ne (sym e)))
  ]

-- `entry->next = new_buckets[i]; new_buckets[i] = entry`
module _ (n : ℕ) (e : Entry) (bs : List (List Entry)) (pos : 0 < n) where
  abbrev chain : List Entry
  chain = get_or bs (hash_key e.key % n) []

  -- An entry under a new key goes in front of its chain.
  pub push-Holds :
      {total : ℕ} {f : Bytes → Option Entry}
      → Holds n total f bs
      → f e.key ≡ none
      → Holds n
          (total + 1)
          (λ q. if str_eq e.key q then some e else f q)
          (set bs (hash_key e.key % n) (e ∷ chain))
  unfolding find_in_chain
  push-Holds {total} {f} h absent =
      let inside : hash_key e.key % n < length bs = rw h.width (omega arith) in
      let old = h.placed (hash_key e.key % n) (hash_key e.key % n) (omega arith) in
      record {
        width = length-set bs _ _ ∙ h.width;
        entries =
            omega (arith, length-flatten-set bs (hash_key e.key % n) (e ∷ chain) inside, h.entries);
        placed =
            set-PlacedFrom n bs _ _ inside h.placed (refl, old.0) (h.reads e.key ∙ absent, old.1);
        reads =
            read-set n bs e.key (e ∷ chain) _ inside (λ q at. ground (arith, h.reads q, at))
              (λ q away. ground (arith, h.reads q, str_eq→eq e.key q, away));
      }

move_chain-append :
    (n : ℕ) (a b : List Entry) (fresh : List (List Entry))
    → move_chain n (a ++ b) fresh ≡ move_chain n b (move_chain n a fresh)
unfolding move_chain
move_chain-append n [] b fresh = refl
move_chain-append n (e ∷ a) b fresh = move_chain-append n a b _

-- The two nested loops are one loop over all entries.
move_buckets-flatten :
    (n : ℕ) (bs fresh : List (List Entry))
    → move_buckets n bs fresh ≡ move_chain n (flatten bs) fresh
unfolding move_buckets move_chain flatten
move_buckets-flatten n [] fresh = refl
move_buckets-flatten n (c ∷ bs) fresh =
    move_buckets-flatten n bs (move_chain n c fresh)
    ∙ sym (move_chain-append n c (flatten bs) fresh)

module _ (n : ℕ) (pos : 0 < n) where
  move_chain-Holds :
      (es : List Entry) (fresh : List (List Entry)) (total : ℕ) (f : Bytes → Option Entry)
      → Distinct es
      → Holds n total f fresh
      → ((q : Bytes) → (find_in_chain q es ≡ none) ⊎ (f q ≡ none))
      → Holds n
          (total + length es)
          (λ q. or_else (f q) (find_in_chain q es))
          (move_chain n es fresh)
  unfolding move_chain find_in_chain
  move_chain-Holds [] fresh total f d h apart = record {
    width = h.width;
    entries = omega (arith, h.entries);
    placed = h.placed;
    reads = λ q. ground (arith, h.reads q);
  }
  move_chain-Holds (e ∷ es) fresh total f d h apart =
      let absent : f e.key ≡ none = ground (arith, apart e.key, str_eq_refl e.key) in
      let step = push-Holds n e fresh pos h absent in
      let rest =
        move_chain-Holds es _ (total + 1) _ d.1 step
          (λ q. ground (arith, apart q, d.0, str_eq→eq e.key q)) in
      record {
        width = rest.width;
        entries = omega (arith, rest.entries);
        placed = rest.placed;
        reads = λ q. rest.reads q ∙ ground (arith, absent, str_eq→eq e.key q);
      }

  -- The new array holds the same entries under the same keys.
  pub move_buckets-Holds :
      (m : ℕ) (bs : List (List Entry))
      → 0 < m
      → PlacedFrom m 0 bs
      → Holds n (length (flatten bs)) (read m bs) (move_buckets n bs (replicate n []))
  unfolding find_in_chain
  move_buckets-Holds m bs posm p =
      let start : Holds n 0 (λ q. none) (replicate n []) = record {
        width = length-replicate n [];
        entries = ap length (flatten-replicate n);
        placed = replicate-PlacedFrom n n;
        reads = λ q. rw (get_or-replicate {A = List Entry} n (hash_key q % n) []);
      } in
      let moved =
        move_chain-Holds (flatten bs) (replicate n []) 0 _ (flatten-Distinct m 0 bs p) start
          (λ q. inr refl) in
      rw move_buckets-flatten (record {
        width = moved.width;
        entries = omega (arith, moved.entries);
        placed = moved.placed;
        reads =
            λ q. moved.reads q ∙ find_in_chain-flatten m 0 (hash_key q % m) q bs p (omega arith);
      })
