-- ===== src/Command/Remaining.antt =====
-- TTL of src/command.c, at `command_execute`.
use in_mem_db.Base.{
  Bytes, [], ◌∷◌, ◌++◌, ℕ, pos, codes, take, ◌-◌, ◌^◌, ◌≤◌, ◌≡◌, ◌∙◌, if◌then◌else◌, some, true,
  false, arith, refl, leb, ◌==◌, leb_ℤ, sub64, str_eq, Bool-cases, ◌<◌, inl, sub64_pos, inr,
}
use in_mem_db.World.{World, time}
use in_mem_db.Entry.{Entry, entry_is_expired}
use in_mem_db.HashTable.{HashTable}
use in_mem_db.HashTable.Valid.{lookup}
use in_mem_db.Stdio.{print_size, print_long}
use in_mem_db.Command.Set.{find_entry-lookup}
use in_mem_db.Command.Effects.{dispatched}
use in_mem_db.Command.{
  parse_command, execute_ttl, ttl_remaining, dispatch, command_execute, upper, find_entry,
}

-- What TTL prints of a deadline at the time `now`.
abbrev pub remaining : ℕ → ℕ → Bytes
remaining deadline now =
    if deadline == 0
    then codes "-1\n"
    else if leb deadline now
    then codes "-2\n"
    else print_size (deadline - now) ++ codes "\n"

no_more :
    (deadline now : ℕ)
    → deadline ≤ now
    → now ≤ 2 ^ 63 - 1
    → leb_ℤ (sub64 (pos deadline) (pos now)) (pos 0) ≡ true
unfolding sub64
no_more deadline now over fits = ground arith

some_more :
    (deadline now : ℕ)
    → now < deadline
    → deadline ≤ 2 ^ 63 - 1
    → (leb_ℤ (sub64 (pos deadline) (pos now)) (pos 0) ≡ false)
      × (print_long (sub64 (pos deadline) (pos now)) ≡ print_size (deadline - now))
unfolding print_long
some_more deadline now more fits =
    rw (sub64_pos deadline now fits (omega arith)) (ground arith, refl)

ttl_prints :
    (t : HashTable) (k : Bytes) (size : ℕ) (w : World) (deadline now now' : ℕ) (e : Entry)
    → lookup t k ≡ some e
    → e.expires_at ≡ pos deadline
    → deadline ≤ 2 ^ 63 - 1
    → now' ≤ 2 ^ 63 - 1
    → w.clock 0 ≡ pos now
    → w.clock 1 ≡ pos now'
    → now ≤ now'
    → (execute_ttl size t (k ∷ []) w).0.response ≡ take (size - 1) (remaining deadline now')
unfolding execute_ttl entry_is_expired time ttl_remaining
ttl_prints t k size w deadline now now' e there x fits fits' c c' order =
    let found : find_entry t k ≡ some e = find_entry-lookup t k ∙ there in
    elim (Bool-cases (deadline == 0)) [
      | inl never ↦ rw (found, execute_ttl, x) (ground arith)
      | inr ends ↦ elim (Bool-cases (leb deadline now)) [
        | inl over ↦ rw (found, execute_ttl, x) (ground (arith, c))
        | inr live ↦ elim (Bool-cases (leb deadline now')) [
          | inl over' ↦ rw (found, execute_ttl, x) (ground (arith, c, c', no_more deadline now'))
          | inr live' ↦ rw (found, execute_ttl, x) (ground (arith, c, c', some_more deadline now'))
        ]
      ]
    ]

-- A line that parses as TTL of one key that is there, with a deadline that fits `time_t`; the clock
-- is read twice and does not go back. The answer goes by the second reading: -1 for the deadline 0,
-- -2 from the deadline on, and before it the exact number of seconds that are left, cut to the
-- response buffer.
pub command_execute-ttl :
    (t : HashTable) (input name k : Bytes) (size : ℕ) (w : World) (deadline now now' : ℕ)
    (e : Entry)
    → parse_command input ≡ some (name ∷ k ∷ [])
    → upper name ≡ codes "TTL"
    → lookup t k ≡ some e
    → e.expires_at ≡ pos deadline
    → deadline ≤ 2 ^ 63 - 1
    → now' ≤ 2 ^ 63 - 1
    → w.clock 0 ≡ pos now
    → w.clock 1 ≡ pos now'
    → now ≤ now'
    → (command_execute t input size w).0.response ≡ take (size - 1) (remaining deadline now')
unfolding dispatch str_eq
command_execute-ttl t input name k size w deadline now now' e h n there x fits fits' c c' order =
    rw (dispatched t input name (k ∷ []) size w h, n)
      (ttl_prints t k size w deadline now now' e there x fits fits' c c' order)
