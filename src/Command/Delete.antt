-- ===== src/Command/Delete.antt =====
-- DEL from the handler to the table.
use in_mem_db.Base.{
  append-nil, Bytes, [], ◌∷◌, ◌++◌, ℕ, pos, negsuc, codes, take, ◌-◌, ◌*◌, ◌≤◌, ◌≡◌, ◌∙◌, ap, sym,
  none, Bool, true, false, arith, refl, ◌≢◌, Bool-cases, inr, inl,
}
use in_mem_db.World.{World}
use in_mem_db.HashTable.{HashTable, hash_table_delete}
use in_mem_db.HashTable.Valid.{lookup, entries, IsValid}
use in_mem_db.HashTable.Delete.{hash_table_delete-DeleteResult, absent}
use in_mem_db.Persistence.{contents, append_line, del_line, persistence_append_del}
use in_mem_db.Persistence.Append.{append_line-Appended, written}
use in_mem_db.Persistence.Log.{remove}
use in_mem_db.Command.Journal.{Journals, failed-Journals}
use in_mem_db.Command.{delete_live}

module _ (size : ℕ) (t : HashTable) (k : Bytes) (w : World) where
  abbrev logged : Bool × World
  logged = append_line (del_line k) w

  abbrev deleted : (Bool × HashTable) × World
  deleted = hash_table_delete t k logged.1

  delete_live_failed :
      logged.0 ≡ false
      → delete_live size t k w ≡ (
        record {
          result = negsuc 0;
          response = take (size - 1) (codes "ERR failed to write AOF\n");
          table = t;
        },
        logged.1,
      )
  unfolding delete_live persistence_append_del
  delete_live_failed h = rw h

  pub delete_live_done :
      logged.0 ≡ true
      → deleted.0.0 ≡ true
      → delete_live size t k w ≡ (
        record { result = pos 0; response = take (size - 1) (codes "1\n"); table = deleted.0.1 },
        deleted.1,
      )
  unfolding delete_live persistence_append_del
  delete_live_done h d = rw (h, d)

  -- Of a key that is there.
  pub delete_live-Journals :
      IsValid t → 3 * entries t ≤ w.live → lookup t k ≢ none → Journals t w (delete_live size t k w)
  delete_live-Journals valid owns there =
      let a = append_line-Appended (del_line k) w in
      let d = hash_table_delete-DeleteResult t k logged.1 valid (omega (arith, a.live)) in
      elim (Bool-cases logged.0) [
        | inr torn ↦ rw (delete_live_failed torn) (failed-Journals t w _ valid refl refl a.live)
        | inl whole ↦ elim (Bool-cases deleted.0.0) [
          | inr gone ↦ absurd (there (absent t k logged.1 _ d gone))
          | inl done ↦ rw (delete_live_done whole done) (record {
            changes = remove k ∷ [];
            single = omega arith;
            valid = d.valid;
            reads = d.reads;
            outcome = inl (
              λ x. cc,
              ap contents (d.outside.aof ∙ written (del_line k) w _ a whole)
                  ∙ ap (λ (line : Bytes). contents w.aof ++ line) (sym (append-nil (del_line k))),
            );
            owned = omega (arith, d.owned, a.live);
          })
        ]
      ]
