-- ===== src/HashTable/Chain.antt =====
-- One chain: what the walks of hash_table.c find, change and cut out.
use in_mem_db.Base.{
  ◌+◌, ◌≡◌, refl, none, some, List, [], ◌∷◌, ◌++◌, Bytes, arith, if◌then◌else◌, str_eq, str_eq→eq,
  str_eq_agree, str_eq_symm, length, or_else,
}
use in_mem_db.Entry.{Entry}
use in_mem_db.HashTable.{find_in_chain, modify_in_chain, unlink}

-- No key stands twice in the chain.
abbrev pub Distinct : List Entry → Type 0
Distinct [] = Unit
Distinct (e ∷ c) = (find_in_chain e.key c ≡ none) × Distinct c

pub find_in_chain-key :
    (k : Bytes) (c : List Entry) {e : Entry} → find_in_chain k c ≡ some e → e.key ≡ k
unfolding find_in_chain
find_in_chain-key k [] h = cc
find_in_chain-key k (x ∷ c) {e} h = ground (arith, find_in_chain-key k c {e = e}, str_eq→eq x.key k)

pub find_in_chain-append :
    (k : Bytes) (a b : List Entry)
    → find_in_chain k (a ++ b) ≡ or_else (find_in_chain k a) (find_in_chain k b)
unfolding find_in_chain
find_in_chain-append k [] b = refl
find_in_chain-append k (e ∷ a) b = ground (arith, find_in_chain-append k a b)

module _ (f : Entry → Entry) (keeps : (e : Entry) → (f e).key ≡ e.key) where
  pub find_in_chain-modify :
      (k q : Bytes) (c : List Entry) (old : Entry)
      → find_in_chain k c ≡ some old
      → find_in_chain q (modify_in_chain k f c)
        ≡ (if str_eq k q then some (f old) else find_in_chain q c)
  unfolding find_in_chain modify_in_chain
  find_in_chain-modify k q [] old h = cc
  find_in_chain-modify k q (e ∷ c) old h = ground (
    arith,
    find_in_chain-modify k q c old,
    keeps e,
    str_eq_agree e.key k q,
    str_eq_agree e.key q k,
    str_eq_symm k q,
  )

  pub find_in_chain-modify_none :
      (k q : Bytes) (c : List Entry)
      → find_in_chain q c ≡ none
      → find_in_chain q (modify_in_chain k f c) ≡ none
  unfolding find_in_chain modify_in_chain
  find_in_chain-modify_none k q [] h = refl
  find_in_chain-modify_none k q (e ∷ c) h = ground (arith, find_in_chain-modify_none k q c, keeps e)

  pub modify_in_chain-Distinct :
      (k : Bytes) (c : List Entry) → Distinct c → Distinct (modify_in_chain k f c)
  unfolding modify_in_chain
  modify_in_chain-Distinct k [] d = tt
  modify_in_chain-Distinct k (e ∷ c) d =
      ground
        (arith, modify_in_chain-Distinct k c d.1, keeps e, find_in_chain-modify_none k e.key c d.0)

pub length-modify_in_chain :
    (k : Bytes) (f : Entry → Entry) (c : List Entry) → length (modify_in_chain k f c) ≡ length c
unfolding modify_in_chain
length-modify_in_chain k f [] = refl
length-modify_in_chain k f (e ∷ c) = ground (arith, length-modify_in_chain k f c)

pub find_in_chain-unlink :
    (k q : Bytes) (c : List Entry)
    → Distinct c
    → find_in_chain q (unlink k c) ≡ (if str_eq k q then none else find_in_chain q c)
unfolding find_in_chain unlink
find_in_chain-unlink k q [] d = ground arith
find_in_chain-unlink k q (e ∷ c) d = ground (
  arith,
  find_in_chain-unlink k q c d.1,
  str_eq_agree e.key k q,
  str_eq_agree e.key q k,
  str_eq_symm k q,
  str_eq→eq e.key q,
)

pub find_in_chain-unlink-none :
    (k q : Bytes) (c : List Entry) → find_in_chain q c ≡ none → find_in_chain q (unlink k c) ≡ none
unfolding find_in_chain unlink
find_in_chain-unlink-none k q [] h = refl
find_in_chain-unlink-none k q (e ∷ c) h = ground (arith, find_in_chain-unlink-none k q c)

pub unlink-Distinct : (k : Bytes) (c : List Entry) → Distinct c → Distinct (unlink k c)
unfolding unlink
unlink-Distinct k [] d = tt
unlink-Distinct k (e ∷ c) d =
    ground (arith, unlink-Distinct k c d.1, find_in_chain-unlink-none k e.key c d.0)

pub length-unlink :
    (k : Bytes) (c : List Entry) {e : Entry}
    → find_in_chain k c ≡ some e
    → length (unlink k c) + 1 ≡ length c
unfolding unlink find_in_chain
length-unlink k [] h = cc
length-unlink k (x ∷ c) {e} h = ground (arith, length-unlink k c {e = e})
