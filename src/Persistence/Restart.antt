-- ===== src/Persistence/Restart.antt =====
-- A rewrite by src/persistence.c, and the loading of the file that it leaves.
use in_mem_db.Base.{
  List, [], ◌∷◌, Bytes, ℤ, ℕ, Option, none, some, ◌≡◌, ◌∙◌, refl, ap, true, Bool-cases, inl, inr,
  if◌then◌else◌, leb_ℤ, arith, str_eq, All, ◌<◌, str_eq→eq, ◌%◌, sym,
}
use mathlib.Core.List.{flatten}
use in_mem_db.World.{World}
use in_mem_db.Entry.{Entry}
use in_mem_db.HashTable.{HashTable, find_in_chain, hash_key}
use in_mem_db.HashTable.Chain.{Distinct}
use in_mem_db.HashTable.Placed.{find_in_chain-flatten, flatten-Distinct}
use in_mem_db.HashTable.Valid.{IsValid, lookup, lookup-read, fresh, fresh-IsValid, lookup-fresh}
use in_mem_db.HashTable.Reads.{expired_at, visible}
use in_mem_db.Persistence.{persistence_rewrite, persistence_load}
use in_mem_db.Persistence.Log.{Content, put, apply, replay, current, IsWritable}
use in_mem_db.Persistence.Replay.{IsCalm}
use in_mem_db.Persistence.Load.{persistence_load-replay}
use in_mem_db.Persistence.Rewrite.{puts, persistence_rewrite-puts}

-- What is left of an entry after a rewrite at `now` and a loading at `later` onto `d`.
abbrev kept : ℤ → ℤ → Option Entry → Option Entry → Option Entry
kept now later none d = d
kept now later (some e) d = if expired_at now e then d else if expired_at later e then d else some e

kept-visible :
    (now later : ℤ) (o : Option Entry)
    → leb_ℤ now later ≡ true
    → visible later (kept now later o none) ≡ visible later o
kept-visible now later none h = refl
kept-visible now later (some e) h = ground arith

module _ (now later : ℤ) where
  replay-puts :
      (es : List Entry) (f : Content) (q : Bytes)
      → Distinct es
      → replay (current later (puts now es)) f q ≡ kept now later (find_in_chain q es) (f q)
  unfolding find_in_chain
  replay-puts [] f q d = refl
  replay-puts (e ∷ es) f q d =
      let f' = apply (put e.key e.value e.expires_at) f in
      let at_f = replay-puts es f q d.1 in
      let at_f' = replay-puts es f' q d.1 in
      elim (Bool-cases (str_eq e.key q)) [
        | inl same ↦
            let absent : find_in_chain q es ≡ none = rw (str_eq→eq e.key q same) at d.0 in
            elim (Bool-cases (expired_at now e)) [
              | inl gone ↦ rw (gone, same) (at_f ∙ rw (absent, gone))
              | inr live ↦ elim (Bool-cases (expired_at later e)) [
                | inl over ↦ rw (live, over, same) (at_f ∙ rw (absent, live, over))
                | inr stays ↦ rw (live, stays, same) (at_f' ∙ rw (absent, same, live, stays))
              ]
            ]
        | inr other ↦ elim (Bool-cases (expired_at now e)) [
          | inl gone ↦ rw (gone, other) at_f
          | inr live ↦ elim (Bool-cases (expired_at later e)) [
            | inl over ↦ rw (live, over, other) at_f
            | inr stays ↦ rw (live, stays, other) (at_f' ∙ rw other)
          ]
        ]
      ]

find-flatten :
    (t : HashTable) (q : Bytes) → IsValid t → find_in_chain q (flatten t.buckets) ≡ lookup t q
find-flatten t q valid =
    find_in_chain-flatten t.size 0 (hash_key q % t.size) q t.buckets valid.placed (omega arith)
    ∙ sym (lookup-read t q)

-- A valid table rewritten at the time `now`, and the file loaded at a `later` time into a new table of
-- `n` buckets under a heap that grants every block: if the rewrite succeeds and the entries are C
-- strings with 64-bit deadlines, then the loading succeeds, and each key shows the same value as it
-- would in the old table at the later time.
pub persistence_rewrite-load :
    (now later : ℤ) (t : HashTable) (w w' : World) (n : ℕ)
    → leb_ℤ now later ≡ true
    → IsValid t
    → ((i : ℕ) → w.clock i ≡ now)
    → All IsWritable (puts now (flatten t.buckets))
    → (persistence_rewrite t w).0 ≡ true
    → 0 < n
    → IsCalm later (fresh n) w'
    → w'.io 0 ≡ true
    → w'.aof ≡ (persistence_rewrite t w).1.aof
    → ((persistence_load (fresh n) w').0.0 ≡ true)
      × ((q : Bytes)
          → visible later (lookup (persistence_load (fresh n) w').0.1 q)
            ≡ visible later (lookup t q))
persistence_rewrite-load now later t w w' n order valid still writable rewritten some_bucket calm
      opened file =
    let cs = puts now (flatten t.buckets) in
    elim (persistence_rewrite-puts now t w still) [
      | inr (failed, _) ↦ absurd (cc)
      | inl (done, text) ↦
          let r =
            persistence_load-replay later cs (fresh n) w' (fresh-IsValid n some_bucket) calm
              writable opened (file ∙ text) in
          (
            r.done,
            λ q.
                ap (visible later) {y = kept now later (lookup t q) none} (
                  r.reads q
                  ∙ replay-puts now later (flatten t.buckets) (lookup (fresh n)) q
                      (flatten-Distinct t.size 0 t.buckets valid.placed)
                  ∙ rw (find-flatten t q valid, lookup-fresh n q))
                ∙ kept-visible now later (lookup t q) order,
          )
    ]
