-- ===== src/Command/Effects.antt =====
-- The commands at `command_execute`, as a client sees them.
use in_mem_db.Base.{
  Bytes, List, [], ◌∷◌, ◌++◌, ℕ, ℤ, pos, codes, take, ◌-◌, ◌≡◌, ◌∙◌, str_eq, some, none, Option,
  arith, refl, add64, Option-cases, inl, inr,
}
use in_mem_db.World.{World, time}
use in_mem_db.Entry.{entry_is_expired}
use in_mem_db.HashTable.{HashTable}
use in_mem_db.HashTable.Valid.{lookup, IsValid}
use in_mem_db.HashTable.Set.{Granting}
use in_mem_db.HashTable.Reads.{visible}
use in_mem_db.Command.Set.{
  SetEffect, Writes, set_plain-SetEffect, set_expiring-SetEffect, find_entry-lookup,
}
use in_mem_db.Command.{
  parse_command, parse_expiry_seconds, execute_set, execute_get, dispatch, command_execute, upper,
  find_entry,
}

-- What a GET prints at the time `now`.
abbrev pub printed : Option Bytes → Bytes
printed none = codes "(nil)\n"
printed (some v) = v ++ codes "\n"

module _ (t : HashTable) (input name : Bytes) (argv : List Bytes) (size : ℕ) (w : World) where
  pub dispatched :
      parse_command input ≡ some (name ∷ argv)
      → command_execute t input size w ≡ dispatch size t (upper name) argv w
  unfolding command_execute
  dispatched h = rw h

  set_dispatched :
      parse_command input ≡ some (name ∷ argv)
      → upper name ≡ codes "SET"
      → command_execute t input size w ≡ execute_set size t argv w
  unfolding dispatch str_eq
  set_dispatched h n = rw (dispatched h, n)

  get_dispatched :
      parse_command input ≡ some (name ∷ argv)
      → upper name ≡ codes "GET"
      → command_execute t input size w ≡ execute_get size t argv w
  unfolding dispatch str_eq
  get_dispatched h n = rw (dispatched h, n)

get_prints :
    (t : HashTable) (k : Bytes) (size : ℕ) (w : World)
    → ((execute_get size t (k ∷ []) w).0.result ≡ pos 0)
      × ((execute_get size t (k ∷ []) w).0.response
          ≡ take (size - 1) (printed (visible (w.clock 0) (lookup t k))))
unfolding execute_get entry_is_expired time
get_prints t k size w = elim (Option-cases (lookup t k)) [
  | inl absent ↦
      let nothing : find_entry t k ≡ none = find_entry-lookup t k ∙ absent in
      rw (nothing, absent, execute_get) (refl, refl)
  | inr (e, there) ↦
      let found : find_entry t k ≡ some e = find_entry-lookup t k ∙ there in
      rw (found, there, execute_get) (ground arith)
]

-- A line that parses as GET of one key prints the value that is visible at the clock's reading, or
-- `(nil)`, cut to the response buffer, and is no error.
pub command_execute-get :
    (t : HashTable) (input name k : Bytes) (size : ℕ) (w : World)
    → parse_command input ≡ some (name ∷ k ∷ [])
    → upper name ≡ codes "GET"
    → ((command_execute t input size w).0.result ≡ pos 0)
      × ((command_execute t input size w).0.response
          ≡ take (size - 1) (printed (visible (w.clock 0) (lookup t k))))
command_execute-get t input name k size w h n =
    rw (get_dispatched t input name (k ∷ []) size w h n) (get_prints t k size w)

-- A line that parses as SET of `k` to `v`, on a valid table, with a heap that grants every block and
-- an append that succeeds: the answer is OK, `k` has `v` without expiry, every other key is as before,
-- the invariant holds, and the file has got exactly the line of this change.
pub command_execute-set :
    (t : HashTable) (input name k v : Bytes) (size : ℕ) (w : World)
    → parse_command input ≡ some (name ∷ k ∷ v ∷ [])
    → upper name ≡ codes "SET"
    → IsValid t
    → Granting w
    → Writes w
    → SetEffect size t k v (pos 0) w (command_execute t input size w)
unfolding execute_set
command_execute-set t input name k v size w h n valid grants writes =
    rw (set_dispatched t input name (k ∷ v ∷ []) size w h n)
      (set_plain-SetEffect size t k v w valid grants writes)

-- A line that parses as SET of `k` to `v` with EX and a valid number of seconds, on a valid table,
-- with a heap that grants every block and an append that succeeds: the answer is OK, `k` has `v` with
-- the deadline `now + seconds` in 64 bits, every other key is as before, the invariant holds, and the
-- file has got exactly the line of this change, with that deadline.
pub command_execute-set_ex :
    (t : HashTable) (input name k v ex text : Bytes) (seconds : ℤ) (size : ℕ) (w : World)
    → parse_command input ≡ some (name ∷ k ∷ v ∷ ex ∷ text ∷ [])
    → upper name ≡ codes "SET"
    → upper ex ≡ codes "EX"
    → parse_expiry_seconds text ≡ some seconds
    → IsValid t
    → Granting w
    → Writes w
    → SetEffect size t k v (add64 (w.clock 0) seconds) w (command_execute t input size w)
unfolding execute_set str_eq
command_execute-set_ex t input name k v ex text seconds size w h n x s valid grants writes =
    rw (set_dispatched t input name (k ∷ v ∷ ex ∷ text ∷ []) size w h n, x, s)
      (set_expiring-SetEffect size t k v w valid seconds grants writes)
