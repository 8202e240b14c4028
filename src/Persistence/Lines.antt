-- ===== src/Persistence/Lines.antt =====
-- The lines of the append-only file of src/persistence.c, written and then read.
use in_mem_db.Base.{
  [], ◌∷◌, pos, some, Bytes, ℤ, ◌≡◌, arith, refl, All, c_string, is_space, Fits64, true, ◌∷◌,
  length, ◌+◌, ◌++◌, IsCharacter, ◌≤◌, some, ◌^◌, take-append, ◌-◌, drop-append, append_assoc,
  is_digit, Bool-cases, is_zero, codes, str_eq, inl, false, inr, ap, ◌<◌, ltb, ◌%◌,
}
use in_mem_db.World.{World, ahead, ◌>>=◌, malloc, free, store}
use in_mem_db.HashTable.{HashTable, hash_table_delete}
use in_mem_db.Stdio.{
  print_size, print_long, skip_space, scan_sign, scan_integer, scan_size, scan_long, take_word,
  scan_word, expect, fread, starts_with_digit,
}
use in_mem_db.Stdio.Decimal.{scan_size-print, scan_long-print}
use in_mem_db.Persistence.{
  counted_text, expiry_text, read_string, read_exat, read_expiry, restore, load_set, load_del,
  load_line, next, store,
}

-- A key or a value: a C string of a length that `size_t` holds together with the NUL.
abbrev pub IsText : Bytes → Type 0
IsText s = All IsCharacter s × (length s < 2 ^ 64 - 1)

pub c_string-IsCharacter : (s : Bytes) → All IsCharacter s → c_string s ≡ s
unfolding c_string
c_string-IsCharacter [] h = refl
c_string-IsCharacter (c ∷ s) h = ground (arith, c_string-IsCharacter s h.1)

-- The world after one more block was granted.
abbrev pub granted : World → World
granted w = record w { heap = ahead w.heap; live = w.live + 1 }

scan_counted :
    (s rest : Bytes)
    → length s ≤ 2 ^ 64 - 1
    → scan_size (counted_text s ++ rest) ≡ some (length s, b':' ∷ (s ++ rest))
unfolding counted_text
scan_counted s rest fits = rw append_assoc (
    scan_size-print (length s) (b':' ∷ (s ++ rest)) fits
      (unfold in_mem_db.Stdio.starts_with_digit is_digit in refl))

-- A string is read back, and what follows it is left.
pub read_string-counted_text :
    (s rest : Bytes) (w : World)
    → IsText s
    → w.heap 0 ≡ true
    → read_string (counted_text s ++ rest) w ≡ (some (s, rest), granted w)
unfolding read_string expect fread malloc free store
read_string-counted_text s rest w text h =
    let fits : ltb ((length s + 1) % 2 ^ 64) (length s) ≡ false = ground (arith, text.1) in
    rw
      (
        read_string,
        scan_counted s rest (omega (arith, text.1)),
        take-append s rest,
        drop-append s rest,
      )
      (ground (arith, h, fits, c_string-IsCharacter s text.0))

-- The blank behind the command word is skipped.
scan_size-blank : (file : Bytes) → scan_size (b' ' ∷ file) ≡ scan_size file
unfolding scan_size scan_integer skip_space is_space
scan_size-blank file = refl

pub read_string-blank : (file : Bytes) → read_string (b' ' ∷ file) ≡ read_string file
unfolding read_string
read_string-blank file = rw (read_string, scan_size-blank file)

scan_long-blank : (file : Bytes) → scan_long (b' ' ∷ file) ≡ scan_long file
unfolding scan_long scan_integer skip_space is_space
scan_long-blank file = refl

scan_word-exat :
    (file : Bytes) → scan_word 4 (codes "EXAT " ++ file) ≡ some (codes "EXAT", b' ' ∷ file)
unfolding scan_word skip_space is_space
scan_word-exat file = refl

read_exat-print :
    (e : ℤ) (rest : Bytes)
    → Fits64 e
    → read_exat (codes "EXAT " ++ (print_long e ++ (10 ∷ rest))) ≡ some (e, rest)
unfolding read_exat expect str_eq starts_with_digit is_digit
read_exat-print e rest fits = rw (
  read_exat,
  scan_word-exat (print_long e ++ (10 ∷ rest)),
  scan_long-blank (print_long e ++ (10 ∷ rest)),
  scan_long-print e (10 ∷ rest) fits refl,
)

expiry_text-append :
    (e : ℤ) (rest : Bytes)
    → is_zero e ≡ false
    → expiry_text e ++ rest ≡ codes " EXAT " ++ (print_long e ++ (10 ∷ rest))
unfolding expiry_text
expiry_text-append e rest h =
    rw h (ap (λ (s : Bytes). codes " EXAT " ++ s) (append_assoc (print_long e) (codes "\n") rest))

is_zero-pos : (e : ℤ) → is_zero e ≡ true → e ≡ pos 0
is_zero-pos e h = ground arith

-- The end of a SET line is read back.
pub read_expiry-expiry_text :
    (e : ℤ) (rest : Bytes) → Fits64 e → read_expiry (expiry_text e ++ rest) ≡ some (e, rest)
unfolding read_expiry
read_expiry-expiry_text e rest fits = elim (Bool-cases (is_zero e)) [
  | inl zero_e ↦ rw (is_zero-pos e zero_e) (unfold expiry_text in refl)
  | inr some_e ↦ rw (expiry_text-append e rest some_e) (read_exat-print e rest fits)
]

pub scan_word-set :
    (file : Bytes) → scan_word 3 (codes "SET " ++ file) ≡ some (codes "SET", b' ' ∷ file)
unfolding scan_word skip_space is_space
scan_word-set file = refl

pub scan_word-del :
    (file : Bytes) → scan_word 3 (codes "DEL " ++ file) ≡ some (codes "DEL", b' ' ∷ file)
unfolding scan_word skip_space is_space
scan_word-del file = refl

-- A SET line is read back: what is left to do is to restore its key.
pub load_set-set_line :
    (t : HashTable) (k v : Bytes) (e : ℤ) (rest : Bytes) (w : World)
    → IsText k
    → IsText v
    → Fits64 e
    → w.heap 0 ≡ true
    → w.heap 1 ≡ true
    → load_line t
        (codes "SET")
        (b' ' ∷ (counted_text k ++ (counted_text v ++ (expiry_text e ++ rest))))
        w
      ≡ restore t k v e rest (granted (granted w))
unfolding load_line load_set str_eq
load_set-set_line t k v e rest w tk tv te h0 h1 = rw (
  read_string-blank,
  ◌>>=◌,
  read_string-counted_text k (counted_text v ++ (expiry_text e ++ rest)) w tk h0,
  read_string-counted_text v (expiry_text e ++ rest) (granted w) tv h1,
  read_expiry-expiry_text e rest te,
)

-- A DEL line is read back, and its key deleted.
pub load_del-del_line :
    (t : HashTable) (k : Bytes) (rest : Bytes) (w : World)
    → IsText k
    → w.heap 0 ≡ true
    → load_line t (codes "DEL") (b' ' ∷ (counted_text k ++ (10 ∷ rest))) w ≡ (
      next (hash_table_delete t k (granted w)).0.1 rest,
      (free (hash_table_delete t k (granted w)).1).1,
    )
unfolding load_line load_del str_eq expect
load_del-del_line t k rest w tk h0 =
    rw (read_string-blank, ◌>>=◌, read_string-counted_text k (10 ∷ rest) w tk h0)
