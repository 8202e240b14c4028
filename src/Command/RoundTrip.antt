-- ===== src/Command/RoundTrip.antt =====
-- SET of src/command.c, and then GET of the key.
use in_mem_db.Base.{
  Bytes, [], ◌∷◌, ◌++◌, ℕ, pos, codes, take, ◌-◌, ◌+◌, ◌^◌, ◌≤◌, ◌≡◌, ◌∙◌, ap, if◌then◌else◌,
  str_eq_refl, some, arith, leb, add64_pos,
}
use in_mem_db.World.{World}
use in_mem_db.HashTable.{HashTable}
use in_mem_db.HashTable.Valid.{lookup, IsValid}
use in_mem_db.HashTable.Set.{Granting, stored}
use in_mem_db.HashTable.Reads.{visible}
use in_mem_db.Command.Set.{Writes}
use in_mem_db.Command.Effects.{command_execute-get, command_execute-set_ex, printed}
use in_mem_db.Command.{parse_command, parse_expiry_seconds, command_execute, upper}

printed-visible :
    (k v : Bytes) (deadline later : ℕ)
    → 1 ≤ deadline
    → printed (visible (pos later) (some (stored k v (pos deadline))))
      ≡ (if leb deadline later then codes "(nil)\n" else v ++ codes "\n")
printed-visible k v deadline later h = ground arith

-- On a valid table, with a heap that grants every block and an append that succeeds: after a line
-- that parses as SET of `k` to `v` with EX and at least one second, at the time `now`, a line that
-- parses as GET of `k` at the time `later` prints the value before the deadline `now + seconds`,
-- which fits `time_t`, and `(nil)` from the deadline on, cut to the response buffer.
pub set_ex-get :
    (t : HashTable) (input name k v ex text input' name' : Bytes) (now seconds later size : ℕ)
    (w w' : World)
    → parse_command input ≡ some (name ∷ k ∷ v ∷ ex ∷ text ∷ [])
    → upper name ≡ codes "SET"
    → upper ex ≡ codes "EX"
    → parse_expiry_seconds text ≡ some (pos seconds)
    → parse_command input' ≡ some (name' ∷ k ∷ [])
    → upper name' ≡ codes "GET"
    → w.clock 0 ≡ pos now
    → 1 ≤ seconds
    → now + seconds ≤ 2 ^ 63 - 1
    → w'.clock 0 ≡ pos later
    → IsValid t
    → Granting w
    → Writes w
    → (command_execute (command_execute t input size w).0.table input' size w').0.response
      ≡ take (size - 1) (if leb (now + seconds) later then codes "(nil)\n" else v ++ codes "\n")
set_ex-get t input name k v ex text input' name' now seconds later size w w' p n x s p' n' c
      positive fits c' valid grants writes =
    let e =
      command_execute-set_ex t input name k v ex text (pos seconds) size w p n x s valid grants
        writes in
    let t' = (command_execute t input size w).0.table in
    let g = command_execute-get t' input' name' k size w' p' n' in
    let found : lookup t' k ≡ some (stored k v (pos (now + seconds))) =
      e.reads k ∙ rw (str_eq_refl k, c) (rw (add64_pos now seconds fits)) in
    g.1
    ∙ rw (found, c')
        (ap (take (size - 1)) (printed-visible k v (now + seconds) later (omega arith)))
