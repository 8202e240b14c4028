-- ===== src/Command/Journal.antt =====
-- The contract between a command, the table and the append-only file.
use in_mem_db.Base.{
  pos, zero, suc, Bytes, List, [], ◌++◌, ◌+◌, ◌*◌, ◌≤◌, ℤ, negsuc, length, ◌≡◌, ◌≢◌, ◌∙◌, sym,
  arith, refl, append-nil, inr, ◌⊎◌, inl, pos, suc,
}
use in_mem_db.World.{World}
use in_mem_db.HashTable.{HashTable}
use in_mem_db.HashTable.Valid.{lookup, entries, IsValid}
use in_mem_db.Persistence.{contents}
use in_mem_db.Persistence.Log.{Change, replay, log_text}
use in_mem_db.Command.{Executed}

-- What a command leaves that records at most one change. Without an error the file has the lines of
-- the changes behind what it had, and the table has the changes. With an error the table is as it
-- was.
pub record Journals (t : HashTable) (w : World) (r : Executed × World) : Type 0 where
  pub changes : List Change
  pub single : length changes ≤ 1
  pub valid : IsValid r.0.table
  pub reads : (q : Bytes) → lookup r.0.table q ≡ replay changes (lookup t) q
  pub outcome :
      ((r.0.result ≢ negsuc 0) × (contents r.1.aof ≡ contents w.aof ++ log_text changes))
      ⊎ ((r.0.result ≡ negsuc 0) × (r.0.table ≡ t))
  pub owned : r.1.live + 3 * entries t ≡ w.live + 3 * entries r.0.table

Error-cases : (x : ℤ) → (x ≡ negsuc 0) ⊎ (x ≢ negsuc 0)
Error-cases (pos n) = inr (λ h. cc)
Error-cases (negsuc zero) = inl refl
Error-cases (negsuc (suc n)) = inr (λ h. cc)

-- A command that changes nothing and leaves the file alone.
pub unchanged-Journals :
    (t : HashTable) (w : World) (r : Executed × World)
    → IsValid t
    → r.0.table ≡ t
    → r.1.live ≡ w.live
    → contents r.1.aof ≡ contents w.aof
    → Journals t w r
unchanged-Journals t w r valid same live aof = record {
  changes = [];
  single = omega arith;
  valid = rw same valid;
  reads = λ q. rw same;
  outcome = elim (Error-cases r.0.result) [
    | inl err ↦ inr (err, same)
    | inr fine ↦ inl (fine, aof ∙ sym (append-nil (contents w.aof)))
  ];
  owned = rw (same, live);
}

-- An append that failed, answered by an error.
pub failed-Journals :
    (t : HashTable) (w : World) (r : Executed × World)
    → IsValid t
    → r.0.table ≡ t
    → r.0.result ≡ negsuc 0
    → r.1.live ≡ w.live
    → Journals t w r
failed-Journals t w r valid same err live = record {
  changes = [];
  single = omega arith;
  valid = rw same valid;
  reads = λ q. rw same;
  outcome = inr (err, same);
  owned = rw (same, live);
}
