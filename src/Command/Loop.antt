-- ===== src/Command/Loop.antt =====
-- command_loop of src/command.c, on the answers of fgets.
use in_mem_db.Base.{
  ℕ, ◌+◌, ◌*◌, ◌≤◌, Bytes, codes, List, [], ◌∷◌, ◌++◌, ◌≡◌, ◌==◌, ◌||◌, pos, ℤ, negsuc, Bool, false,
  if◌then◌else◌, arith, Bool-cases, inl, inr,
}
use in_mem_db.World.{World, Run, ◌>>=◌, pure}
use in_mem_db.HashTable.{HashTable}
use in_mem_db.HashTable.Valid.{IsValid, entries}
use in_mem_db.Command.{command_execute}
use in_mem_db.Command.Contract.{command_execute-IsValid}

abbrev pub input_size : ℕ
input_size = 256

-- `input[strcspn(input, "\n")] = '\0'`
unfoldable pub cut_newline : Bytes → Bytes
cut_newline [] = []
cut_newline (c ∷ input) = let rest = cut_newline input in if c == 10 || c == 0 then [] else c ∷ rest

abbrev pub is_one : ℤ → Bool
is_one (pos n) = n == 1
is_one (negsuc n) = false

-- The table and what is printed. The end of the list is the end of the input.
unfoldable pub command_loop : HashTable → List Bytes → Run (HashTable × Bytes)
command_loop table [] = pure (table, codes "InMemDB> ")
command_loop table (input ∷ more) = do
  done ← command_execute table (cut_newline input) input_size
  let shown = codes "InMemDB> " ++ done.response
  if is_one done.result
      then pure (done.table, shown)
      else do (table', rest) ← command_loop done.table more; pure (table', shown ++ rest)

-- Whatever is typed, the table stays valid, and the live blocks change by three for each entry that is
-- more or fewer.
pub command_loop-IsValid :
    (inputs : List Bytes) (t : HashTable) (w : World)
    → IsValid t
    → 3 * entries t ≤ w.live
    → IsValid (command_loop t inputs w).0.0
      × ((command_loop t inputs w).1.live + 3 * entries t
          ≡ w.live + 3 * entries (command_loop t inputs w).0.0)
unfolding command_loop
command_loop-IsValid [] t w valid owns = (valid, omega arith)
command_loop-IsValid (input ∷ more) t w valid owns =
    let r = command_execute t (cut_newline input) input_size w in
    let (valid', owned) = command_execute-IsValid t (cut_newline input) input_size w valid owns in
    elim (Bool-cases (is_one r.0.result)) [
      | inl ended ↦ rw ended (valid', owned)
      | inr goes_on ↦
          let (valid'', owned') =
            command_loop-IsValid more r.0.table r.1 valid' (omega (arith, owned, owns)) in
          rw goes_on (valid'', omega (arith, owned, owned'))
    ]
