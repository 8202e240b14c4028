-- ===== src/Persistence/Replay.antt =====
-- The loading loop of src/persistence.c on a file that records some changes.
use in_mem_db.Base.{
  List, [], ◌∷◌, ◌++◌, Bytes, ℤ, some, ◌≡◌, refl, if◌then◌else◌, ℕ, zero, suc, true, ◌≤◌, ◌<◌, ◌-◌,
  arith, ◌*◌, ◌+◌, Bool-cases, inl, inr, codes, Bool, length, All, append_assoc, ap, ◌∙◌,
}
use mathlib.Core.Path.{fun_ext}
use in_mem_db.World.{World, ◌>>=◌, free, time}
use in_mem_db.Entry.{entry_is_expired}
use in_mem_db.HashTable.{HashTable, hash_table_set_with_expiry, hash_table_delete}
use in_mem_db.HashTable.Valid.{IsValid, lookup, entries}
use in_mem_db.HashTable.Set.{
  stored, Granting, hash_table_set_with_expiry-Granting, hash_table_set_with_expiry-SetResult,
}
use in_mem_db.HashTable.Delete.{hash_table_delete-DeleteResult}
use in_mem_db.Stdio.{scan_word, skip_space}
use in_mem_db.Persistence.{
  Loaded, next, restore, load_line, load_lines, counted_text, expiry_text, set_line, del_line,
}
use in_mem_db.Persistence.Lines.{
  scan_word-set, scan_word-del, granted, load_set-set_line, load_del-del_line,
}
use in_mem_db.Persistence.Log.{
  Change, put, remove, line, log_text, IsWritable, Content, apply, replay, passed_over, current,
}

-- The heap grants every block, the clock stands at `now`, and the entries of `t` are allocated.
pub record IsCalm (now : ℤ) (t : HashTable) (w : World) : Type 0 where
  pub grants : Granting w
  pub clock : (n : ℕ) → w.clock n ≡ now
  pub owns : 3 * entries t ≤ w.live

-- One round of the loop: the next table reads as `f`, and no block is lost.
pub record Round (now : ℤ) (t : HashTable) (w : World) (f : Content) (rest : Bytes)
    (r : Loaded × World) : Type 0 where
  pub table : HashTable
  pub goes : r.0 ≡ next table rest
  pub valid : IsValid table
  pub reads : (q : Bytes) → lookup table q ≡ f q
  pub grants : Granting r.1
  pub clock : (n : ℕ) → r.1.clock n ≡ now
  pub owned : r.1.live + 3 * entries t ≡ w.live + 3 * entries table

-- The test of expiry at a clock that stands still.
expiry_test :
    (now : ℤ) (k v : Bytes) (e : ℤ) (w : World)
    → ((n : ℕ) → w.clock n ≡ now)
    → ((entry_is_expired (stored k v e) w).0 ≡ passed_over now (put k v e))
      × ((entry_is_expired (stored k v e) w).1.heap ≡ w.heap)
      × ((entry_is_expired (stored k v e) w).1.live ≡ w.live)
      × ((n : ℕ) → (entry_is_expired (stored k v e) w).1.clock n ≡ now)
unfolding entry_is_expired time
expiry_test now k v e w h =
    (ground (arith, h 0), ground arith, ground arith, λ n. ground (arith, h n, h (suc n)))

module _ (now : ℤ) (t : HashTable) (k v : Bytes) (e : ℤ) (rest : Bytes) (w : World) where
  abbrev looked : World
  looked = (entry_is_expired (stored k v e) w).1

  restore-Round :
      IsValid t
      → 3 * entries t + 2 ≤ w.live
      → Granting w
      → ((n : ℕ) → w.clock n ≡ now)
      → Round now t
          (record w { live = w.live - 2 })
          (if passed_over now (put k v e) then lookup t else apply (put k v e) (lookup t))
          rest
          (restore t k v e rest w)
  unfolding restore free
  restore-Round valid room grants clock =
      let (test, heap, live, still) = expiry_test now k v e w clock in
      elim (Bool-cases (passed_over now (put k v e))) [
        | inl over ↦
            rw (test, over)
              (record {
                table = t;
                goes = refl;
                valid = valid;
                reads = λ q. refl;
                grants = rw heap grants;
                clock = still;
                owned = omega (arith, live);
              })
        | inr kept ↦
            let grants' : Granting looked = rw heap grants in
            let (done, grants'') = hash_table_set_with_expiry-Granting t k v e looked grants' in
            let s = hash_table_set_with_expiry-SetResult t k v e looked valid in
            rw (test, kept, done)
              (record {
                table = (hash_table_set_with_expiry t k v e looked).0.1;
                goes = refl;
                valid = s.valid;
                reads = λ q. ground (arith, s.reads q, done);
                grants = grants'';
                clock = rw s.outside.clock still;
                owned = omega (arith, live, s.owned);
              })
      ]

-- What a change leaves of a content at the time `now`.
abbrev changed : ℤ → Content → Change → Content
changed now f c = if passed_over now c then f else apply c f

module _ (now : ℤ) (t : HashTable) (w : World) (rest : Bytes) (valid : IsValid t)
    (calm : IsCalm now t w) where
  put-Round :
      (k v : Bytes) (e : ℤ)
      → IsWritable (put k v e)
      → Round now t w (changed now (lookup t) (put k v e)) rest (
          load_line t
            (codes "SET")
            (b' ' ∷ (counted_text k ++ (counted_text v ++ (expiry_text e ++ rest))))
            w)
  put-Round k v e (tk, tv, te) =
      let r =
        restore-Round now t k v e rest (granted (granted w)) valid (omega (arith, calm.owns))
          (λ n. calm.grants (suc (suc n))) calm.clock in
      rw (load_set-set_line t k v e rest w tk tv te (calm.grants 0) (calm.grants 1)) (record {
        table = r.table;
        goes = r.goes;
        valid = r.valid;
        reads = r.reads;
        grants = r.grants;
        clock = r.clock;
        owned = omega (arith, r.owned);
      })

  remove-Round :
      (k : Bytes)
      → IsWritable (remove k)
      → Round now t w
          (changed now (lookup t) (remove k))
          rest
          (load_line t (codes "DEL") (b' ' ∷ (counted_text k ++ (10 ∷ rest))) w)
  unfolding free
  remove-Round k tk =
      let d = hash_table_delete-DeleteResult t k (granted w) valid (omega (arith, calm.owns)) in
      rw (load_del-del_line t k rest w tk (calm.grants 0)) (record {
        table = (hash_table_delete t k (granted w)).0.1;
        goes = refl;
        valid = d.valid;
        reads = d.reads;
        grants = rw d.heap (λ n. calm.grants (suc n));
        clock = rw d.outside.clock calm.clock;
        owned = omega (arith, d.owned, calm.owns);
      })

-- The command word of a line, and what follows it up to and including `rest`.
abbrev command : Change → Bytes
command (put k v e) = codes "SET"
command (remove k) = codes "DEL"

abbrev arguments : Change → Bytes → Bytes
arguments (put k v e) rest = b' ' ∷ (counted_text k ++ (counted_text v ++ (expiry_text e ++ rest)))
arguments (remove k) rest = b' ' ∷ (counted_text k ++ (10 ∷ rest))

line-command :
    (c : Change) (rest : Bytes) → scan_word 3 (line c ++ rest) ≡ some (command c, arguments c rest)
unfolding set_line del_line
line-command (put k v e) rest =
    simp append_assoc
      (scan_word-set (counted_text k ++ (counted_text v ++ (expiry_text e ++ rest))))
line-command (remove k) rest = simp append_assoc (scan_word-del (counted_text k ++ (10 ∷ rest)))

line-Round :
    (now : ℤ) (t : HashTable) (w : World) (rest : Bytes) (c : Change)
    → IsValid t
    → IsCalm now t w
    → IsWritable c
    → Round now t w (changed now (lookup t) c) rest (load_line t (command c) (arguments c rest) w)
line-Round now t w rest (put k v e) valid calm ok = put-Round now t w rest valid calm k v e ok
line-Round now t w rest (remove k) valid calm ok = remove-Round now t w rest valid calm k ok

-- The loop ended well, in a table that reads as `f`, with no block lost.
pub record Loads (t : HashTable) (w : World) (f : Content) (r : (Bool × HashTable) × World)
    : Type 0 where
  pub done : r.0.0 ≡ true
  pub valid : IsValid r.0.1
  pub reads : (q : Bytes) → lookup r.0.1 q ≡ f q
  pub owned : r.1.live + 3 * entries t ≡ w.live + 3 * entries r.0.1

replay-changed :
    (now : ℤ) (c : Change) (cs : List Change) (f g : Content)
    → ((q : Bytes) → g q ≡ changed now f c q)
    → replay (current now cs) g ≡ replay (current now (c ∷ cs)) f
replay-changed now c cs f g h = elim (Bool-cases (passed_over now c)) [
  | inl over ↦ rw over (ap (replay (current now cs)) (fun_ext λ q. rw over at h q))
  | inr kept ↦ rw kept (ap (replay (current now cs)) (fun_ext λ q. rw kept at h q))
]

pub load_lines-log_text :
    (now : ℤ) (cs : List Change) (fuel : ℕ) (t : HashTable) (w : World)
    → length cs < fuel
    → IsValid t
    → IsCalm now t w
    → All IsWritable cs
    → (r : Bool × HashTable) × (w' : World) × (load_lines fuel t (log_text cs) w ≡ (some r, w'))
      × Loads t w (replay (current now cs) (lookup t)) (r, w')
unfolding load_lines
load_lines-log_text now cs zero t w h valid calm ok = absurd (omega arith)
load_lines-log_text now [] (suc fuel) t w h valid calm ok =
    unfold scan_word skip_space in
    ((true, t), w, refl, record { done = refl; valid = valid; reads = λ q. refl; owned = refl })
load_lines-log_text now (c ∷ cs) (suc fuel) t w h valid calm ok =
    let r = line-Round now t w (log_text cs) c valid calm ok.0 in
    let w' = (load_line t (command c) (arguments c (log_text cs)) w).1 in
    let (ended, w'', runs, ih) =
      load_lines-log_text now cs fuel r.table w' (omega arith) r.valid
        (record { grants = r.grants; clock = r.clock; owns = omega (arith, r.owned, calm.owns) })
        ok.1 in
    rw (line-command c (log_text cs), load_lines, ◌>>=◌, r.goes)
      (
        ended,
        w'',
        runs,
        record {
          done = ih.done;
          valid = ih.valid;
          reads = λ q.
              ih.reads q
              ∙ ap (λ (g : Content). g q)
                  (replay-changed now c cs (lookup t) (lookup r.table) r.reads);
          owned = omega (arith, ih.owned, r.owned);
        },
      )
