-- ===== src/WorkerPool/ReadLock.antt =====
-- The commands that run under the read lock of src/worker_pool.c.
use in_mem_db.Base.{
  ℕ, Bytes, codes, List, [], ◌∷◌, true, false, Option, some, none, is_space, drop, ◌≡◌, refl,
  str_eq, arith, to_upper, ◌≤◌, ◌-◌, ◌⊎◌, ◌==◌, length, inl, inr, Bool-cases,
}
use in_mem_db.World.{World}
use in_mem_db.HashTable.{HashTable}
use in_mem_db.Stdio.{skip_space}
use in_mem_db.Command.{
  scan_bare, scan_argument, parse_from, parse_command, prepend, upper, dispatch, execute_parsed,
  command_execute, ended, prepend_to,
}
use in_mem_db.Command.ReadOnly.{Untouched, execute_get-Untouched, execute_ttl-Untouched}
use in_mem_db.WorkerPool.{to_lower, starts_same, word_ends, is_read_command}

-- The first three bytes of a text that passes the test against the letters `x`, `y`, `z`.
record Named (x y z : ℕ) (s : Bytes) : Type 0 where
  a : ℕ
  b : ℕ
  c : ℕ
  rest : Bytes
  shape : s ≡ a ∷ b ∷ c ∷ rest
  upper_a : to_upper a ≡ x
  upper_b : to_upper b ≡ y
  upper_c : to_upper c ≡ z

-- A byte that is, up to case, the letter `x`.
same_letter :
    (c x : ℕ) → b'a' ≤ x → x ≤ b'z' → to_lower c == to_lower x ≡ true → to_upper c ≡ x - 32
unfolding to_lower to_upper
same_letter c x lo hi h = ground arith

-- Such a byte is no white space and no quote.
letter_plain :
    (c x : ℕ) → b'A' ≤ x → x ≤ b'Z' → to_upper c ≡ x → (is_space c ≡ false) × (c == b'"' ≡ false)
unfolding to_upper is_space
letter_plain c x lo hi h = ground arith

starts_same-Named :
    (x y z : ℕ) (s : Bytes)
    → (b'a' ≤ x) × (x ≤ b'z')
    → (b'a' ≤ y) × (y ≤ b'z')
    → (b'a' ≤ z) × (z ≤ b'z')
    → starts_same 3 s (x ∷ y ∷ z ∷ []) ≡ true
    → Named (x - 32) (y - 32) (z - 32) s
unfolding starts_same
starts_same-Named x y z [] hx hy hz h = cc
starts_same-Named x y z (a ∷ []) hx hy hz h = absurd (ground arith)
starts_same-Named x y z (a ∷ b ∷ []) hx hy hz h = absurd (ground arith)
starts_same-Named x y z (a ∷ b ∷ c ∷ rest) hx hy hz h = record {
  a = a;
  b = b;
  c = c;
  rest = rest;
  shape = refl;
  upper_a = same_letter a x hx.0 hx.1 (ground arith);
  upper_b = same_letter b y hy.0 hy.1 (ground arith);
  upper_c = same_letter c z hz.0 hz.1 (ground arith);
}

-- The bytes of the name are one argument.
scan_bare-name :
    (a b c : ℕ) (rest : Bytes)
    → is_space a ≡ false
    → is_space b ≡ false
    → is_space c ≡ false
    → word_ends rest ≡ true
    → (more : Bytes) × (scan_bare (a ∷ b ∷ c ∷ rest) ≡ (a ∷ b ∷ c ∷ [], more))
unfolding scan_bare word_ends
scan_bare-name a b c [] ha hb hc ends = ([], ground arith)
scan_bare-name a b c (d ∷ rest) ha hb hc ends = (rest, ground arith)

-- An argument in front of a loop, ended or not.
prepended :
    (name : Bytes) (more : Option (Option (List Bytes))) (parsed : Option (List Bytes))
    → parsed ≡ ended (prepend_to name more)
    → (args : Option (List Bytes)) × (parsed ≡ prepend name args)
prepended name none parsed e = (none, e)
prepended name (some args) parsed e = (args, e)

-- The command line of such a name: a parse error, or the name and its arguments.
parse_command-name :
    (s : Bytes) (a b c : ℕ) (rest : Bytes)
    → skip_space s ≡ a ∷ b ∷ c ∷ rest
    → (is_space a ≡ false) × (a == b'"' ≡ false)
    → is_space b ≡ false
    → is_space c ≡ false
    → word_ends rest ≡ true
    → (args : Option (List Bytes)) × (parse_command s ≡ prepend (a ∷ b ∷ c ∷ []) args)
unfolding parse_command scan_argument
parse_command-name s a b c rest shape (ha, qa) hb hc ends =
    let (more, e) = scan_bare-name a b c rest ha hb hc ends in
    prepended (a ∷ b ∷ c ∷ []) (parse_from (length s) 1 more) (parse_command s)
      (rw (parse_from, shape, qa, e))

-- Behind a name that is GET or TTL up to case, a command touches nothing.
module _ (size : ℕ) (t : HashTable) (w : World) where
  name-Untouched :
      (name : Bytes) (args : Option (List Bytes))
      → (upper name ≡ codes "GET") ⊎ (upper name ≡ codes "TTL")
      → Untouched t w (execute_parsed size t (prepend name args) w)
  unfolding execute_parsed
  name-Untouched name none h = ground arith
  name-Untouched name (some argv) (inl get) =
      rw get (unfold dispatch str_eq in execute_get-Untouched size t w argv)
  name-Untouched name (some argv) (inr ttl) =
      rw ttl (unfold dispatch str_eq in execute_ttl-Untouched size t w argv)

  Named-Untouched :
      (x y z : ℕ) (s : Bytes)
      → (b'A' ≤ x) × (x ≤ b'Z')
      → (b'A' ≤ y) × (y ≤ b'Z')
      → (b'A' ≤ z) × (z ≤ b'Z')
      → ((x ∷ y ∷ z ∷ []) ≡ codes "GET") ⊎ ((x ∷ y ∷ z ∷ []) ≡ codes "TTL")
      → Named x y z (skip_space s)
      → word_ends (drop 3 (skip_space s)) ≡ true
      → Untouched t w (command_execute t s size w)
  unfolding command_execute upper
  Named-Untouched x y z s hx hy hz which n ends =
      let la = letter_plain n.a x hx.0 hx.1 n.upper_a in
      let lb = letter_plain n.b y hy.0 hy.1 n.upper_b in
      let lc = letter_plain n.c z hz.0 hz.1 n.upper_c in
      let (args, e) =
        parse_command-name s n.a n.b n.c n.rest n.shape la lb.0 lc.0 (rw n.shape at ends) in
      rw e (name-Untouched (n.a ∷ n.b ∷ n.c ∷ []) args (rw (n.upper_a, n.upper_b, n.upper_c) which))

  -- A command for which the worker takes the read lock only reads the clock: the table, the heap
  -- and the files are as they were, whatever the command line holds.
  pub is_read_command-Untouched :
      (command : Bytes)
      → is_read_command command ≡ true
      → Untouched t w (command_execute t command size w)
  unfolding is_read_command
  is_read_command-Untouched command h =
      let name = skip_space command in
      elim (Bool-cases (starts_same 3 name (codes "get"))) [
        | inl get ↦
            Named-Untouched b'G' b'E' b'T' command (omega arith) (omega arith) (omega arith)
              (inl refl)
              (starts_same-Named b'g' b'e' b't' name (omega arith) (omega arith) (omega arith) get)
              (rw get at h)
        | inr other ↦ elim (Bool-cases (starts_same 3 name (codes "ttl"))) [
          | inl ttl ↦
              Named-Untouched b'T' b'T' b'L' command (omega arith) (omega arith) (omega arith)
                (inr refl)
                (starts_same-Named b't' b't' b'l' name (omega arith) (omega arith) (omega arith)
                  ttl)
                (rw (other, ttl) at h)
          | inr neither ↦ absurd (ground arith)
        ]
      ]
