-- ===== src/Persistence/Append.antt =====
-- Appending one line, on every outcome of the stdio calls.
use in_mem_db.Base.{
  List, [], ◌∷◌, ◌++◌, Bytes, some, ◌≡◌, refl, ℕ, zero, suc, true, false, take, length, arith,
  if◌then◌else◌, ap, Bool, Bool-cases, inr, sym, append-nil, inl, take-all, ◌⊎◌,
}
use in_mem_db.World.{World, ahead}
use in_mem_db.Persistence.{append_line, contents}

-- What an append leaves: nothing but the file and the answers of stdio has changed, the file has
-- at most been made longer by a part of the line, and success means the whole line.
pub record Appended (line : Bytes) (w : World) (r : Bool × World) : Type 0 where
  pub heap : r.1.heap ≡ w.heap
  pub live : r.1.live ≡ w.live
  pub clock : r.1.clock ≡ w.clock
  pub tmp : r.1.tmp ≡ w.tmp
  pub part : (n : ℕ) × (contents r.1.aof ≡ contents w.aof ++ take n line)
  pub whole : (r.0 ≡ false) ⊎ (r.1.aof ≡ some (contents w.aof ++ line))

take-take {ℓ} : {A : Type ℓ} (m n : ℕ) (xs : List A) → (k : ℕ) × (take m (take n xs) ≡ take k xs)
take-take zero n xs = (0, refl)
take-take (suc m) zero xs = (0, refl)
take-take (suc m) (suc n) [] = (0, refl)
take-take (suc m) (suc n) (x ∷ xs) = let (k, e) = take-take m n xs in (suc k, ap (λ r. x ∷ r) e)

-- What reaches the file is a part from the front.
written_part :
    (b : Bool) (m n : ℕ) (xs : Bytes)
    → (k : ℕ) × ((if b then take n xs else take m (take n xs)) ≡ take k xs)
written_part true m n xs = (n, refl)
written_part false m n xs = take-take m n xs

module _ (line : Bytes) (w : World) where
  append_refused :
      w.io 0 ≡ false
      → append_line line w ≡ (false, record w { io = ahead w.io; torn = ahead w.torn })
  unfolding append_line
  append_refused h = ground arith

  -- the world after `fprintf` and `fclose`, and what they put into the file
  abbrev pub closed : Bytes → World
  closed written = record w {
    io = ahead (ahead (ahead w.io));
    torn = ahead (ahead (ahead w.torn));
    aof = some (contents w.aof ++ written);
  }

  append_printed :
      w.io 0 ≡ true
      → w.io 1 ≡ true
      → append_line line w ≡ (w.io 2, closed (if w.io 2 then line else take (w.torn 2) line))
  unfolding append_line
  append_printed a b = ground arith

  append_torn :
      w.io 0 ≡ true
      → w.io 1 ≡ false
      → append_line line w ≡ (
        false,
        closed (if w.io 2 then take (w.torn 1) line else take (w.torn 2) (take (w.torn 1) line)),
      )
  unfolding append_line
  append_torn a b = ground arith

pub written :
    (line : Bytes) (w : World) (r : Bool × World)
    → Appended line w r
    → r.0 ≡ true
    → r.1.aof ≡ some (contents w.aof ++ line)
written line w r a h = elim a.whole [ inl failed ↦ absurd (cc) | inr all ↦ all ]

-- Appending a line touches nothing but the file, which gets longer by at most the line; a success
-- means that the file has the whole line.
pub append_line-Appended : (line : Bytes) (w : World) → Appended line w (append_line line w)
append_line-Appended line w = elim (Bool-cases (w.io 0)) [
  | inr no_file ↦ rw (append_refused line w no_file) (record {
    heap = refl;
    live = refl;
    clock = refl;
    tmp = refl;
    part = (0, sym (append-nil (contents w.aof)));
    whole = inl refl;
  })
  | inl file ↦ elim (Bool-cases (w.io 1)) [
    | inl printed ↦ rw (append_printed line w file printed) (record {
      heap = refl;
      live = refl;
      clock = refl;
      tmp = refl;
      part =
          let all : take (length line) line ≡ line = take-all (length line) line (omega arith) in
          let (k, e) = written_part (w.io 2) (w.torn 2) (length line) line in
          (k, ap (λ s. contents w.aof ++ s) (rw all at e));
      whole = elim (Bool-cases (w.io 2)) [
        | inl closed_it ↦ inr (rw closed_it)
        | inr failed ↦ inl failed
      ];
    })
    | inr torn ↦ rw (append_torn line w file torn) (record {
      heap = refl;
      live = refl;
      clock = refl;
      tmp = refl;
      part =
          let (k, e) = written_part (w.io 2) (w.torn 2) (w.torn 1) line in
          (k, ap (λ s. contents w.aof ++ s) e);
      whole = inl refl;
    })
  ]
]

-- With stdio at work the line is appended.
pub append_line-succeeds :
    (line : Bytes) (w : World)
    → w.io 0 ≡ true
    → w.io 1 ≡ true
    → w.io 2 ≡ true
    → append_line line w ≡ (true, closed line w line)
append_line-succeeds line w a b c = rw (append_printed line w a b, c)
