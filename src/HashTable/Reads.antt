-- ===== src/HashTable/Reads.antt =====
-- `hash_table_get` and `hash_table_ttl` at the clock's next reading.
use in_mem_db.Base.{
  Bytes, ℤ, pos, negsuc, ◌≡◌, ◌-◌, ◌≤◌, ◌^◌, if◌then◌else◌, arith, Option, some, none, Bool,
  is_zero, ℕ, not, leb_ℤ, ◌&&◌, sub64, Option-cases, inl, inr, ◌==◌, leb,
}
use in_mem_db.World.{World, time}
use in_mem_db.Entry.{Entry, entry_is_expired}
use in_mem_db.HashTable.{HashTable, find_in_chain, chain_of, hash_table_get, hash_table_ttl}
use in_mem_db.HashTable.Valid.{lookup}

-- Whether an entry is gone at the time `now`.
abbrev pub expired_at : ℤ → Entry → Bool
expired_at now e = not (is_zero e.expires_at) && leb_ℤ e.expires_at now

-- The value that a client may see at the time `now`.
abbrev pub visible : ℤ → Option Entry → Option Bytes
visible now none = none
visible now (some e) = if expired_at now e then none else some e.value

pub entry_is_expired-eq :
    (e : Entry) (w : World) → (entry_is_expired e w).0 ≡ expired_at (w.clock 0) e
unfolding entry_is_expired time
entry_is_expired-eq e w = ground arith

-- GET returns the value under the key unless it has expired at the clock's reading, or nothing.
pub hash_table_get-visible :
    (t : HashTable) (k : Bytes) (w : World)
    → (hash_table_get t k w).0 ≡ visible (w.clock 0) (lookup t k)
unfolding hash_table_get lookup
hash_table_get-visible t k w = elim (Option-cases (find_in_chain k (chain_of t k))) [
  | inl absent ↦ rw (absent, hash_table_get)
  | inr (e, found) ↦ rw (found, hash_table_get) (rw entry_is_expired-eq)
]

-- The seconds that `e` has left at `now`, or -1 for no expiry, -2 for an entry that is gone.
abbrev pub seconds_left : ℤ → Option Entry → ℤ
seconds_left now none = negsuc 1
seconds_left now (some e) =
    if is_zero e.expires_at
    then negsuc 0
    else if leb_ℤ e.expires_at now
    then negsuc 1
    else sub64 e.expires_at now

pub hash_table_ttl-seconds_left :
    (t : HashTable) (k : Bytes) (w : World)
    → (hash_table_ttl t k w).0 ≡ seconds_left (w.clock 0) (lookup t k)
unfolding hash_table_ttl lookup time
hash_table_ttl-seconds_left t k w = ground arith

-- On a stored entry with its deadline, TTL and GET at one time agree: deadline 0 is no expiry (-1 and
-- the value); from the deadline on the key is gone (-2 and nothing); before it TTL is the exact
-- number of seconds that are left, and GET the value.
pub ttl_get_agree :
    (t : HashTable) (k : Bytes) (w : World) (now deadline : ℕ) (e : Entry)
    → w.clock 0 ≡ pos now
    → lookup t k ≡ some e
    → e.expires_at ≡ pos deadline
    → deadline ≤ 2 ^ 63 - 1
    → ((hash_table_ttl t k w).0 ≡ (
        if deadline == 0
        then negsuc 0
        else if leb deadline now
        then negsuc 1
        else pos (deadline - now)))
      × ((hash_table_get t k w).0
          ≡ (if not (deadline == 0) && leb deadline now then none else some e.value))
unfolding sub64
ttl_get_agree t k w now deadline e c l x fits =
    rw (hash_table_ttl-seconds_left, hash_table_get-visible, c, l) (ground (arith, x))
