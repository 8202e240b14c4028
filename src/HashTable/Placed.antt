-- ===== src/HashTable/Placed.antt =====
-- Where entries stand: each in the bucket of its hash, no key twice.
use mathlib.Core.List.{flatten}
use in_mem_db.Base.{
  ℕ, zero, suc, ◌+◌, ◌%◌, ◌<◌, ◌≡◌, ◌≢◌, refl, ◌∙◌, Option, none, some, List, [], ◌∷◌, ◌++◌, Bytes,
  arith, str_eq→eq, length, get_or, set, length-append, get_or-set_self, get_or-set_ne, or_else,
  replicate, get_or-replicate,
}
use native.Mathlib.Decide.{ℕ_discrete}
use in_mem_db.Entry.{Entry}
use in_mem_db.HashTable.{find_in_chain, modify_in_chain, unlink, hash_key}
use in_mem_db.HashTable.Chain.{Distinct, find_in_chain-append}

-- Every entry of the chain has its home at index `i` of `n` buckets.
abbrev pub Homed : ℕ → ℕ → List Entry → Type 0
Homed n i [] = Unit
Homed n i (e ∷ c) = (hash_key e.key % n ≡ i) × Homed n i c

-- The buckets, the first of which has index `b`, hold their own entries, each key once.
abbrev pub PlacedFrom : ℕ → ℕ → List (List Entry) → Type 0
PlacedFrom n b bs = (i j : ℕ) → b + i ≡ j → Homed n j (get_or bs i []) × Distinct (get_or bs i [])

pub Homed-find :
    (n i : ℕ) (k : Bytes) (c : List Entry)
    → Homed n i c
    → hash_key k % n ≢ i
    → find_in_chain k c ≡ none
unfolding find_in_chain
Homed-find n i k [] h ne = refl
Homed-find n i k (e ∷ c) h ne = ground (arith, Homed-find n i k c h.1 ne, str_eq→eq e.key k)

pub modify_in_chain-Homed :
    (n i : ℕ) (k : Bytes) (f : Entry → Entry) (c : List Entry)
    → ((e : Entry) → (f e).key ≡ e.key)
    → Homed n i c
    → Homed n i (modify_in_chain k f c)
unfolding modify_in_chain
modify_in_chain-Homed n i k f [] keeps h = tt
modify_in_chain-Homed n i k f (e ∷ c) keeps h =
    ground (arith, modify_in_chain-Homed n i k f c keeps h.1, keeps e)

pub unlink-Homed : (n i : ℕ) (k : Bytes) (c : List Entry) → Homed n i c → Homed n i (unlink k c)
unfolding unlink
unlink-Homed n i k [] h = tt
unlink-Homed n i k (e ∷ c) h = ground (arith, unlink-Homed n i k c h.1)

module _ (n : ℕ) where
  tail_placed :
      (b : ℕ) (c : List Entry) (bs : List (List Entry))
      → PlacedFrom n b (c ∷ bs)
      → PlacedFrom n (suc b) bs
  tail_placed b c bs p = λ i j e. p (suc i) j (omega arith)

  -- A key with its home below `b` is nowhere.
  find_below :
      (b : ℕ) (k : Bytes) (bs : List (List Entry))
      → PlacedFrom n b bs
      → hash_key k % n < b
      → find_in_chain k (flatten bs) ≡ none
  unfolding flatten find_in_chain
  find_below b k [] p h = refl
  find_below b k (c ∷ bs) p h =
      rw
        (
          find_in_chain-append k c (flatten bs),
          Homed-find n b k c (p 0 b (omega arith)).0 (omega arith),
        )
        (find_below (suc b) k bs (tail_placed b c bs p) (omega arith))

  -- A key is found in the whole table where it is found in its home.
  pub find_in_chain-flatten :
      (b i : ℕ) (k : Bytes) (bs : List (List Entry))
      → PlacedFrom n b bs
      → hash_key k % n ≡ b + i
      → find_in_chain k (flatten bs) ≡ find_in_chain k (get_or bs i [])
  unfolding flatten
  find_in_chain-flatten b i k [] p h = refl
  find_in_chain-flatten b zero k (c ∷ bs) p h =
      rw
        (
          find_in_chain-append k c (flatten bs),
          find_below (suc b) k bs (tail_placed b c bs p) (omega arith),
        )
        (or_none (find_in_chain k c))
    where
      or_none : (o : Option Entry) → or_else o none ≡ o
      or_none none = refl
      or_none (some e) = refl
  find_in_chain-flatten b (suc i) k (c ∷ bs) p h =
      rw
        (
          find_in_chain-append k c (flatten bs),
          Homed-find n b k c (p 0 b (omega arith)).0 (omega arith),
        )
        (find_in_chain-flatten (suc b) i k bs (tail_placed b c bs p) (omega arith))

  Distinct-append :
      (b : ℕ) (c rest : List Entry)
      → Homed n b c
      → Distinct c
      → Distinct rest
      → ((k : Bytes) → hash_key k % n ≡ b → find_in_chain k rest ≡ none)
      → Distinct (c ++ rest)
  Distinct-append b [] rest h d dr apart = dr
  Distinct-append b (e ∷ c) rest h d dr apart = (
    rw (find_in_chain-append e.key c rest, d.0) (apart e.key h.0),
    Distinct-append b c rest h.1 d.1 dr apart,
  )

  pub flatten-Distinct :
      (b : ℕ) (bs : List (List Entry)) → PlacedFrom n b bs → Distinct (flatten bs)
  unfolding flatten
  flatten-Distinct b [] p = tt
  flatten-Distinct b (c ∷ bs) p =
      Distinct-append b c (flatten bs) (p 0 b (omega arith)).0 (p 0 b (omega arith)).1
        (flatten-Distinct (suc b) bs (tail_placed b c bs p))
        (λ k e. find_below (suc b) k bs (tail_placed b c bs p) (omega arith))

-- Writing one chain.
module _ (n : ℕ) (bs : List (List Entry)) (i : ℕ) (c : List Entry) (inside : i < length bs) where
  pub set-PlacedFrom : PlacedFrom n 0 bs → Homed n i c → Distinct c → PlacedFrom n 0 (set bs i c)
  set-PlacedFrom p h d j j' e = elim (ℕ_discrete i j) [
    | yes same ↦ rw (← same, get_or-set_self bs i c [] inside) (rw (← (same ∙ j=j')) h, d)
    | no other ↦ rw (get_or-set_ne bs i j c [] other) (p j j' e)
  ]
    where
      j=j' : j ≡ j'
      j=j' = omega arith

-- Writing a bucket changes the number of entries by what the bucket gains.
pub length-flatten-set :
    (buckets : List (List Entry)) (n : ℕ) (chain : List Entry)
    → n < length buckets
    → length (flatten buckets) + length chain
      ≡ length (get_or buckets n []) + length (flatten (set buckets n chain))
unfolding flatten
length-flatten-set [] n chain inside = absurd (omega arith)
length-flatten-set (head ∷ tail) zero chain inside = simp length-append (omega arith)
length-flatten-set (head ∷ tail) (suc n) chain inside =
    let rest = length-flatten-set tail n chain (omega arith) in
    simp length-append (omega (arith, rest))

pub replicate-PlacedFrom : (n m : ℕ) → PlacedFrom n 0 (replicate m [])
replicate-PlacedFrom n m i j e = rw (get_or-replicate {A = List Entry} m i []) (tt, tt)

pub flatten-replicate : (m : ℕ) → flatten {A = Entry} (replicate m []) ≡ []
unfolding flatten replicate
flatten-replicate zero = refl
flatten-replicate (suc m) = flatten-replicate m
