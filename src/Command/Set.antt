-- ===== src/Command/Set.antt =====
-- SET from the handler to the table.
use in_mem_db.Base.{
  not, append-nil, Bytes, [], ◌++◌, ℕ, ℤ, pos, negsuc, codes, take, ◌-◌, ◌≡◌, ◌∙◌, ap, sym,
  if◌then◌else◌, str_eq, some, Bool, true, false, arith, refl, ◌⊎◌, str_eq_refl, Bool-cases, ◌+◌,
  inl, ◌*◌, inr, ◌∷◌, add64,
}
use in_mem_db.World.{time, World, ahead}
use in_mem_db.Entry.{Entry}
use in_mem_db.HashTable.{HashTable, hash_table_set}
use in_mem_db.HashTable.Modify.{modified-IsValid}
use in_mem_db.HashTable.Valid.{lookup, entries, IsValid, SameOutside}
use in_mem_db.HashTable.Set.{
  stored, Granting, hash_table_set_with_expiry-SetResult, hash_table_set_with_expiry-Granting,
}
use in_mem_db.Persistence.Log.{put, apply}
use in_mem_db.Persistence.{
  contents, append_line, set_line, persistence_append_set, persistence_append_set_expiry,
}
use in_mem_db.Persistence.Append.{append_line-Appended, append_line-succeeds, closed, written}
use in_mem_db.Command.Journal.{Journals, failed-Journals}
use in_mem_db.Command.{
  answer, Executed, set_memory, find_entry, write_expiry, set_plain, set_expiring, time,
}

write_expiry-IsValid :
    (t : HashTable) (k : Bytes) (e : ℤ) (old : Entry)
    → IsValid t
    → lookup t k ≡ some old
    → IsValid (write_expiry t k e)
      × (entries (write_expiry t k e) ≡ entries t)
      × ((q : Bytes)
          → lookup (write_expiry t k e) q
            ≡ (if str_eq k q then some (record old { expires_at = e }) else lookup t q))
unfolding write_expiry
write_expiry-IsValid t k e old valid h =
    modified-IsValid t k (λ x. record x { expires_at = e }) (λ x. refl) valid old h

pub find_entry-lookup : (t : HashTable) (k : Bytes) → find_entry t k ≡ lookup t k
unfolding find_entry lookup
find_entry-lookup t k = refl

-- What the part of SET behind the file leaves: the change is made and answered by OK, or the table
-- is as it was and the answer is an error.
pub record Stores (size : ℕ) (t : HashTable) (k v : Bytes) (e : ℤ) (w : World)
    (r : Executed × World) : Type 0 where
  pub valid : IsValid r.0.table
  pub outcome :
      ((r.0.result ≡ pos 0)
        × (r.0.response ≡ take (size - 1) (codes "OK\n"))
        × ((q : Bytes) → lookup r.0.table q ≡ apply (put k v e) (lookup t) q))
      ⊎ ((r.0.result ≡ negsuc 0)
          × (r.0.response ≡ take (size - 1) (codes "ERR failed to set key\n"))
          × (r.0.table ≡ t))
  pub owned : r.1.live + 3 * entries t ≡ w.live + 3 * entries r.0.table
  pub outside : SameOutside w r.1

module _ (size : ℕ) (t : HashTable) (k v : Bytes) (w : World) (valid : IsValid t) where
  abbrev mid : HashTable
  mid = (hash_table_set t k v w).0.1

  -- The table between `hash_table_set` and the write of the expiry.
  mid-lookup : (hash_table_set t k v w).0.0 ≡ true → lookup mid k ≡ some (stored k v (pos 0))
  unfolding hash_table_set
  mid-lookup done =
      let s = hash_table_set_with_expiry-SetResult t k v (pos 0) w valid in
      ground (arith, s.reads k, done, str_eq_refl k)

  abbrev expiry : Bool → ℤ → ℤ
  expiry has e = if has then e else pos 0

  set_memory_done :
      (has : Bool) (e : ℤ)
      → (hash_table_set t k v w).0.0 ≡ true
      → set_memory size t k v has e w ≡ (
        record {
          result = pos 0;
          response = take (size - 1) (codes "OK\n");
          table = write_expiry mid k (expiry has e);
        },
        (hash_table_set t k v w).1,
      )
  unfolding set_memory
  set_memory_done true e done = rw (done, find_entry-lookup, mid-lookup done)
  set_memory_done false e done = rw (done, find_entry-lookup, mid-lookup done)

  set_memory_denied :
      (has : Bool) (e : ℤ)
      → (hash_table_set t k v w).0.0 ≡ false
      → set_memory size t k v has e w ≡ (
        record {
          result = negsuc 0;
          response = take (size - 1) (codes "ERR failed to set key\n");
          table = mid;
        },
        (hash_table_set t k v w).1,
      )
  unfolding set_memory
  set_memory_denied has e denied = rw denied

  pub set_memory-Stores :
      (has : Bool) (e : ℤ) → Stores size t k v (expiry has e) w (set_memory size t k v has e w)
  unfolding hash_table_set
  set_memory-Stores has e =
      let s = hash_table_set_with_expiry-SetResult t k v (pos 0) w valid in
      elim (Bool-cases (hash_table_set t k v w).0.0) [
        | inl done ↦
            let (valid', same, reads) =
              write_expiry-IsValid mid k (expiry has e) (stored k v (pos 0)) s.valid
                (mid-lookup done) in
            rw (set_memory_done has e done) (record {
              valid = valid';
              outcome = inl (refl, refl, λ q. reads q ∙ ground (arith, s.reads q, done));
              owned = omega (arith, s.owned, same);
              outside = s.outside;
            })
        | inr denied ↦ rw (set_memory_denied has e denied) (record {
          valid = s.valid;
          outcome = inr (refl, refl, elim s.refused [ inl done ↦ absurd (cc) | inr same ↦ same ]);
          owned = s.owned;
          outside = s.outside;
        })
      ]

Stores-Journals :
    (size : ℕ) (t : HashTable) (k v : Bytes) (e : ℤ) (w w' : World) (r : Executed × World)
    → w'.live ≡ w.live
    → w'.aof ≡ some (contents w.aof ++ set_line k v e)
    → Stores size t k v e w' r
    → Journals t w r
Stores-Journals size t k v e w w' r live aof s = elim s.outcome [
  | inl (good, _, reads) ↦ record {
    changes = put k v e ∷ [];
    single = omega arith;
    valid = s.valid;
    reads = reads;
    outcome = inl (
      λ x. cc,
      ap contents (s.outside.aof ∙ aof)
          ∙ ap (λ (line : Bytes). contents w.aof ++ line) (sym (append-nil (set_line k v e))),
    );
    owned = omega (arith, s.owned, live);
  }
  | inr (bad, _, same) ↦ record {
    changes = [];
    single = omega arith;
    valid = s.valid;
    reads = λ q. rw same;
    outcome = inr (bad, same);
    owned = omega (arith, s.owned, live);
  }
]

-- An append of the line, and then the table: the record of both.
module _ (size : ℕ) (t : HashTable) (k v : Bytes) (w : World) (valid : IsValid t) where
  abbrev appended : ℤ → Bool × World
  appended e = append_line (set_line k v e) w

  abbrev persist : Bool → ℤ → Executed × World
  persist has e =
      if not (appended (expiry size t k v w valid has e)).0
      then answer size (negsuc 0) (codes "ERR failed to write AOF\n") t
          (appended (expiry size t k v w valid has e)).1
      else set_memory size t k v has e (appended (expiry size t k v w valid has e)).1

  persist-Journals : (has : Bool) (e : ℤ) → Journals t w (persist has e)
  unfolding answer
  persist-Journals has e =
      let x = expiry size t k v w valid has e in
      let a = append_line-Appended (set_line k v x) w in
      elim (Bool-cases (appended x).0) [
        | inr torn ↦ rw torn (failed-Journals t w _ valid refl refl a.live)
        | inl whole ↦
            let s = set_memory-Stores size t k v (appended x).1 valid has e in
            rw whole (
              Stores-Journals size t k v x w (appended x).1 _ a.live
                (written (set_line k v x) w _ a whole) s)
      ]

module _ (size : ℕ) (t : HashTable) (k v : Bytes) (w : World) (valid : IsValid t) where
  set_plain-persist : set_plain size t k v w ≡ persist size t k v w valid false (pos 0)
  unfolding set_plain persistence_append_set persistence_append_set_expiry
  set_plain-persist = elim (Bool-cases (append_line (set_line k v (pos 0)) w).0) [
    | inl whole ↦ rw whole
    | inr torn ↦ rw torn
  ]

  abbrev ticked : World
  ticked = record w { clock = ahead w.clock }

  set_expiring-persist :
      (seconds : ℤ)
      → set_expiring size t k v seconds w
        ≡ persist size t k v ticked valid true (add64 (w.clock 0) seconds)
  unfolding set_expiring persistence_append_set_expiry time
  set_expiring-persist seconds =
      elim (Bool-cases (append_line (set_line k v (add64 (w.clock 0) seconds)) ticked).0) [
        | inl whole ↦ rw whole
        | inr torn ↦ rw torn
      ]

  pub set_plain-Journals : Journals t w (set_plain size t k v w)
  set_plain-Journals = rw set_plain-persist (persist-Journals size t k v w valid false (pos 0))

  pub set_expiring-Journals : (seconds : ℤ) → Journals t w (set_expiring size t k v seconds w)
  set_expiring-Journals seconds =
      let j = persist-Journals size t k v ticked valid true (add64 (w.clock 0) seconds) in
      rw set_expiring-persist (record {
        changes = j.changes;
        single = j.single;
        valid = j.valid;
        reads = j.reads;
        outcome = j.outcome;
        owned = j.owned;
      })

-- What SET does when nothing fails: OK, the change in the table, and its line behind the file.
pub record SetEffect (size : ℕ) (t : HashTable) (k v : Bytes) (e : ℤ) (w : World)
    (r : Executed × World) : Type 0 where
  pub result : r.0.result ≡ pos 0
  pub response : r.0.response ≡ take (size - 1) (codes "OK\n")
  pub valid : IsValid r.0.table
  pub reads : (q : Bytes) → lookup r.0.table q ≡ apply (put k v e) (lookup t) q
  pub file : r.1.aof ≡ some (contents w.aof ++ set_line k v e)

-- The three stdio calls of an append succeed.
abbrev pub Writes : World → Type 0
Writes w = (w.io 0 ≡ true) × (w.io 1 ≡ true) × (w.io 2 ≡ true)

module _ (size : ℕ) (t : HashTable) (k v : Bytes) (w : World) (valid : IsValid t) where
  persist-SetEffect :
      (has : Bool) (e : ℤ)
      → Granting w
      → Writes w
      → SetEffect size t k v (expiry size t k v w valid has e) w (persist size t k v w valid has e)
  unfolding hash_table_set
  persist-SetEffect has e grants (a, b, c) =
      let x = expiry size t k v w valid has e in
      let line = set_line k v x in
      let w' = closed line w line in
      let done = (hash_table_set_with_expiry-Granting t k v (pos 0) w' (λ n. grants n)).0 in
      let s = set_memory-Stores size t k v w' valid has e in
      rw (append_line-succeeds line w a b c) (elim s.outcome [
        | inl (good, says, reads) ↦ record {
          result = good;
          response = says;
          valid = s.valid;
          reads = reads;
          file = s.outside.aof;
        }
        | inr (bad, says, same) ↦
            let good = ap (λ r. r.0.result) (set_memory_done size t k v w' valid has e done) in
            absurd (cc)
      ])

  pub set_plain-SetEffect :
      Granting w → Writes w → SetEffect size t k v (pos 0) w (set_plain size t k v w)
  set_plain-SetEffect grants writes =
      rw (set_plain-persist size t k v w valid) (persist-SetEffect false (pos 0) grants writes)

module _ (size : ℕ) (t : HashTable) (k v : Bytes) (w : World) (valid : IsValid t) where
  pub set_expiring-SetEffect :
      (seconds : ℤ)
      → Granting w
      → Writes w
      → SetEffect size t k v (add64 (w.clock 0) seconds) w (set_expiring size t k v seconds w)
  set_expiring-SetEffect seconds grants writes =
      let s =
        persist-SetEffect size t k v (ticked size t k v w valid) valid true
          (add64 (w.clock 0) seconds) grants writes in
      rw (set_expiring-persist size t k v w valid seconds) (record {
        result = s.result;
        response = s.response;
        valid = s.valid;
        reads = s.reads;
        file = s.file;
      })
