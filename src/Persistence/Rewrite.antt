-- ===== src/Persistence/Rewrite.antt =====
-- `persistence_rewrite` of src/persistence.c: what it puts into the file.
use in_mem_db.Base.{
  List, [], ◌∷◌, ◌++◌, Bytes, ℤ, ℕ, suc, some, ◌≡◌, ◌∙◌, refl, sym, true, false, Bool, Bool-cases,
  inl, inr, ◌⊎◌, if◌then◌else◌, arith, append_assoc, append-nil,
}
use mathlib.Core.List.{flatten}
use in_mem_db.World.{World, ahead, time, fprintf}
use in_mem_db.Entry.{Entry, entry_is_expired}
use in_mem_db.HashTable.{HashTable}
use in_mem_db.HashTable.Reads.{expired_at, entry_is_expired-eq}
use in_mem_db.Persistence.{
  rewrite_chain, rewrite_buckets, persistence_rewrite, fopen_tmp, fclose_tmp, rename_tmp, set_line,
}
use in_mem_db.Persistence.Log.{Change, put, log_text, log_text-append}

-- The puts of the entries that have not expired at `now`.
abbrev pub puts : ℤ → List Entry → List Change
puts now [] = []
puts now (e ∷ es) =
    let rest = puts now es in
    if expired_at now e then rest else put e.key e.value e.expires_at ∷ rest

puts-append : (now : ℤ) (xs ys : List Entry) → puts now (xs ++ ys) ≡ puts now xs ++ puts now ys
puts-append now [] ys = refl
puts-append now (e ∷ xs) ys = elim (Bool-cases (expired_at now e)) [
  | inl gone ↦ rw (gone, puts-append now xs ys)
  | inr live ↦ rw (live, puts-append now xs ys)
]

-- What printing some changes leaves at a clock that stands at `now`: they are behind what the buffer
-- held, or a call has failed; the file is not touched.
record Printed (now : ℤ) (changes : List Change) (pending : Bytes) (w : World)
    (r : (Bool × Bytes) × World) : Type 0 where
  outcome : ((r.0.0 ≡ true) × (r.0.1 ≡ pending ++ log_text changes)) ⊎ (r.0.0 ≡ false)
  aof : r.1.aof ≡ w.aof
  clock : (n : ℕ) → r.1.clock n ≡ now

test_still :
    (now : ℤ) (e : Entry) (w : World)
    → ((n : ℕ) → w.clock n ≡ now)
    → ((entry_is_expired e w).0 ≡ expired_at now e)
      × ((entry_is_expired e w).1.aof ≡ w.aof)
      × ((n : ℕ) → (entry_is_expired e w).1.clock n ≡ now)
unfolding entry_is_expired time
test_still now e w h =
    (rw (entry_is_expired-eq e w, h 0), ground arith, λ n. ground (arith, h n, h (suc n)))

rewrite_chain-Printed :
    (now : ℤ) (c : List Entry) (pending : Bytes) (w : World)
    → ((n : ℕ) → w.clock n ≡ now)
    → Printed now (puts now c) pending w (rewrite_chain c pending w)
unfolding rewrite_chain fprintf
rewrite_chain-Printed now [] pending w still = record {
  outcome = inl (refl, sym (append-nil pending));
  aof = refl;
  clock = still;
}
rewrite_chain-Printed now (e ∷ c) pending w still =
    let (test, aof, still') = test_still now e w still in
    let w' = (entry_is_expired e w).1 in
    elim (Bool-cases (expired_at now e)) [
      | inl gone ↦
          let p = rewrite_chain-Printed now c pending w' still' in
          rw (test, gone) (record { outcome = p.outcome; aof = p.aof ∙ aof; clock = p.clock })
      | inr live ↦ elim (Bool-cases (w'.io 0)) [
        | inr torn ↦
            rw (test, live, torn) (record { outcome = inr refl; aof = aof; clock = still' })
        | inl whole ↦
            let line = set_line e.key e.value e.expires_at in
            let w'' = record w' { io = ahead w'.io; torn = ahead w'.torn } in
            let p = rewrite_chain-Printed now c (pending ++ line) w'' still' in
            rw (test, live, whole)
              (record {
                outcome = rw append_assoc at p.outcome;
                aof = p.aof ∙ aof;
                clock = p.clock;
              })
      ]
    ]

rewrite_buckets-Printed :
    (now : ℤ) (bs : List (List Entry)) (pending : Bytes) (w : World)
    → ((n : ℕ) → w.clock n ≡ now)
    → Printed now (puts now (flatten bs)) pending w (rewrite_buckets bs pending w)
unfolding rewrite_buckets flatten
rewrite_buckets-Printed now [] pending w still = record {
  outcome = inl (refl, sym (append-nil pending));
  aof = refl;
  clock = still;
}
rewrite_buckets-Printed now (c ∷ bs) pending w still =
    let p = rewrite_chain-Printed now c pending w still in
    let r = rewrite_chain c pending w in
    elim p.outcome [
      | inr torn ↦ rw torn (record { outcome = inr refl; aof = p.aof; clock = p.clock })
      | inl (whole, text) ↦
          let q = rewrite_buckets-Printed now bs r.0.1 r.1 p.clock in
          rw whole (record {
            outcome = elim q.outcome [
              | inr torn ↦ inr torn
              | inl (good, more) ↦ inl (
                good,
                more
                    ∙ rw (
                      text,
                      puts-append now c (flatten bs),
                      log_text-append (puts now c) (puts now (flatten bs)),
                      append_assoc,
                    ),
              )
            ];
            aof = q.aof ∙ p.aof;
            clock = q.clock;
          })
    ]

-- At a clock that stands at `now`: a rewrite that succeeds leaves in the file just a put for each
-- entry that has not expired, in the order of the buckets; one that fails leaves the file as it was.
pub persistence_rewrite-puts :
    (now : ℤ) (t : HashTable) (w : World)
    → ((n : ℕ) → w.clock n ≡ now)
    → (((persistence_rewrite t w).0 ≡ true)
        × ((persistence_rewrite t w).1.aof ≡ some (log_text (puts now (flatten t.buckets)))))
      ⊎ (((persistence_rewrite t w).0 ≡ false) × ((persistence_rewrite t w).1.aof ≡ w.aof))
unfolding persistence_rewrite fopen_tmp fclose_tmp rename_tmp
persistence_rewrite-puts now t w still = elim (Bool-cases (w.io 0)) [
  | inr no_file ↦ rw no_file (inr (refl, refl))
  | inl file ↦
      let opened = record w { io = ahead w.io; torn = ahead w.torn; tmp = some [] } in
      let p = rewrite_buckets-Printed now t.buckets [] opened still in
      let r = rewrite_buckets t.buckets [] opened in
      elim p.outcome [
        | inr torn ↦ rw (file, torn) (inr (refl, p.aof))
        | inl (whole, text) ↦ rw (file, whole) (ground (arith, p.aof, text))
      ]
]
