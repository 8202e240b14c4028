-- ===== src/Persistence/Fuel.antt =====
-- The fuel of the loading loop of src/persistence.c, on any file.
use in_mem_db.Base.{
  Bytes, [], ◌∷◌, ℕ, zero, suc, ◌≤◌, ◌<◌, ◌≡◌, ◌⊎◌, inl, inr, length, length-drop, Option-cases,
  arith, refl, ℤ, str_eq, codes, Bool, some, true, false,
}
use in_mem_db.World.{World, ◌>>=◌, malloc, free, store, if-either}
use in_mem_db.HashTable.{HashTable}
use in_mem_db.Stdio.{scan_size, scan_long, scan_word, fread}
use in_mem_db.Stdio.Lengths.{
  Leaves, scan_size-Leaves, scan_long-Leaves, scan_word-Leaves, scan_word-Shorter, expect-cases,
}
use in_mem_db.Persistence.{
  Loaded, stopped, next, read_string, read_exat, read_expiry, restore, load_set, load_del,
  load_line, load_lines,
}

-- A round that goes on leaves at most `n` bytes of the file.
abbrev Goes : ℕ → Loaded → Type 0
Goes n (stopped t) = Unit
Goes n (next t file) = length file ≤ n

Goes-≤ : (m n : ℕ) (l : Loaded) → m ≤ n → Goes m l → Goes n l
Goes-≤ m n (stopped t) le h = tt
Goes-≤ m n (next t file) le h = omega arith

read_string-Leaves : (file : Bytes) (w : World) → Leaves (length file) (read_string file w).0
unfolding read_string fread malloc free store
read_string-Leaves file w = elim (Option-cases (scan_size file)) [
  | inl h ↦ rw (h, read_string) tt
  | inr ((n, after), h) ↦
      let first : length after ≤ length file = rw h at (scan_size-Leaves file) in
      elim (expect-cases b':' after) [
        | inl e ↦ rw (h, e, read_string) tt
        | inr (rest, e, less) ↦ rw (h, e, read_string) (ground (arith, length-drop n rest, first))
      ]
]

read_exat-Leaves : (file : Bytes) → Leaves (length file) (read_exat file)
unfolding read_exat
read_exat-Leaves file = elim (Option-cases (scan_word 4 file)) [
  | inl h ↦ rw (h, read_exat) tt
  | inr ((word, after), h) ↦
      let first : length after ≤ length file = rw h at (scan_word-Leaves 3 file) in
      elim (Option-cases (scan_long after)) [
        | inl l ↦ rw (h, l, read_exat) tt
        | inr ((x, after'), l) ↦
            let second : length after' ≤ length after = rw l at (scan_long-Leaves after) in
            elim (expect-cases 10 after') [
              | inl e ↦ rw (h, l, e, read_exat) (ground arith)
              | inr (rest, e, less) ↦ rw (h, l, e, read_exat) (ground (arith, first, second))
            ]
      ]
]

read_expiry-Leaves : (file : Bytes) → Leaves (length file) (read_expiry file)
unfolding read_expiry
read_expiry-Leaves [] = tt
read_expiry-Leaves (c ∷ file) = elim (Option-cases (read_exat file)) [
  | inl h ↦ ground arith
  | inr ((x, rest), h) ↦
      let less : length rest ≤ length file = rw h at (read_exat-Leaves file) in ground arith
]

restore-Goes :
    (t : HashTable) (k v : Bytes) (e : ℤ) (file : Bytes) (w : World)
    → Goes (length file) (restore t k v e file w).0
unfolding restore free
restore-Goes t k v e file w = ground arith

load_set-Goes :
    (t : HashTable) (file : Bytes) (w : World) → Goes (length file) (load_set t file w).0
unfolding load_set
load_set-Goes t file w =
    let w' = (read_string file w).1 in
    elim (Option-cases (read_string file w).0) [
      | inl h ↦ rw (h, load_set, ◌>>=◌, Goes) tt
      | inr ((k, after), h) ↦
          let first : length after ≤ length file = rw h at (read_string-Leaves file w) in
          elim (Option-cases (read_string after w').0) [
            | inl g ↦ rw (h, g, load_set, ◌>>=◌, Goes) tt
            | inr ((v, after'), g) ↦
                let second : length after' ≤ length after = rw g at (read_string-Leaves after w') in
                elim (Option-cases (read_expiry after')) [
                  | inl x ↦ rw (h, g, x, load_set, ◌>>=◌, Goes) tt
                  | inr ((e, rest), x) ↦
                      let third : length rest ≤ length after' =
                        rw x at (read_expiry-Leaves after') in
                      rw (h, g, x, load_set, ◌>>=◌, Goes)
                        (Goes-≤ (length rest) (length file) _ (omega arith)
                          (restore-Goes t k v e rest (read_string after w').1))
                ]
          ]
    ]

load_del-Goes :
    (t : HashTable) (file : Bytes) (w : World) → Goes (length file) (load_del t file w).0
unfolding load_del free
load_del-Goes t file w = elim (Option-cases (read_string file w).0) [
  | inl h ↦ rw (h, load_del, ◌>>=◌, Goes) tt
  | inr ((k, after), h) ↦
      let first : length after ≤ length file = rw h at (read_string-Leaves file w) in
      elim (expect-cases 10 after) [
        | inl e ↦ rw (h, e, load_del, ◌>>=◌, Goes) tt
        | inr (rest, e, less) ↦ rw (h, e, load_del, ◌>>=◌, Goes) (omega (arith, first))
      ]
]

load_line-Goes :
    (t : HashTable) (command file : Bytes) (w : World)
    → Goes (length file) (load_line t command file w).0
unfolding load_line
load_line-Goes t command file w =
    if-either (λ r. Goes (length file) r.0) (str_eq command (codes "SET")) _ _ w
      (load_set-Goes t file w)
      (if-either (λ r. Goes (length file) r.0) (str_eq command (codes "DEL")) _ _ w
        (load_del-Goes t file w) tt)

pub Loaded-cases :
    (l : Loaded)
    → ((t : HashTable) × (l ≡ stopped t)) ⊎ ((t : HashTable) × (file : Bytes) × (l ≡ next t file))
Loaded-cases (stopped t) = inl (t, refl)
Loaded-cases (next t file) = inr (t, file, refl)

-- Above the number of bytes of the file, whatever the file holds and the world answers, the loading
-- loop ends by its own tests, with a result and a table, and does the same with every such fuel.
pub load_lines-fuel :
    (f g : ℕ) (t : HashTable) (file : Bytes) (w : World)
    → length file < f
    → length file < g
    → (r : Bool × HashTable) × (w' : World) × (load_lines f t file w ≡ (some r, w'))
      × (load_lines g t file w ≡ (some r, w'))
unfolding load_lines
load_lines-fuel zero g t file w hf hg = absurd (omega arith)
load_lines-fuel (suc f) zero t file w hf hg = absurd (omega arith)
load_lines-fuel (suc f) (suc g) t file w hf hg = elim (scan_word-Shorter 2 file) [
  | inl h ↦ rw (h, load_lines) ((true, t), w, refl, refl)
  | inr (command, after, h, less) ↦
      let w' = (load_line t command after w).1 in
      elim (Loaded-cases (load_line t command after w).0) [
        | inl (t', l) ↦ rw (h, l, load_lines, ◌>>=◌) ((false, t'), w', refl, refl)
        | inr (t', rest, l) ↦
            let shorter : length rest ≤ length after = rw l at (load_line-Goes t command after w) in
            rw (h, l, load_lines, ◌>>=◌)
              (load_lines-fuel f g t' rest w' (omega arith) (omega arith))
      ]
]
