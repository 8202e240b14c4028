-- ===== src/Persistence/Log.antt =====
-- The append-only file as a list of changes: what it means, and the text that stands for it.
use in_mem_db.Base.{
  List, [], ◌∷◌, ◌++◌, Bytes, ℤ, Option, none, some, Fits64, ◌≡◌, refl, if◌then◌else◌, str_eq, not,
  is_zero, leb_ℤ, ◌&&◌, All, Bool, ap, false, ◌∙◌, sym, append_assoc,
}
use in_mem_db.HashTable.Set.{stored}
use in_mem_db.Entry.{Entry}
use in_mem_db.Persistence.{set_line, del_line}
use in_mem_db.Persistence.Lines.{IsText}

pub data Change : Type 0 where
  put : Bytes → Bytes → ℤ → Change
  remove : Bytes → Change

abbrev pub line : Change → Bytes
line (put k v e) = set_line k v e
line (remove k) = del_line k

-- The file that records the changes.
abbrev pub log_text : List Change → Bytes
log_text [] = []
log_text (c ∷ cs) = line c ++ log_text cs

-- What `line` can write and the loader can read: C strings, and a timestamp of 64 bits.
abbrev pub IsWritable : Change → Type 0
IsWritable (put k v e) = IsText k × IsText v × Fits64 e
IsWritable (remove k) = IsText k

-- A database, abstractly: the entry under each key.
abbrev pub Content : Type 0
Content = Bytes → Option Entry

abbrev pub apply : Change → Content → Content
apply (put k v e) f q = if str_eq k q then some (stored k v e) else f q
apply (remove k) f q = if str_eq k q then none else f q

abbrev pub replay : List Change → Content → Content
replay [] f = f
replay (c ∷ cs) f = replay cs (apply c f)

-- At the time `now` the loader passes over a put that has expired.
abbrev pub passed_over : ℤ → Change → Bool
passed_over now (put k v e) = not (is_zero e) && leb_ℤ e now
passed_over now (remove k) = false

abbrev pub current : ℤ → List Change → List Change
current now [] = []
current now (c ∷ cs) = let rest = current now cs in if passed_over now c then rest else c ∷ rest

pub log_text-append : (xs ys : List Change) → log_text (xs ++ ys) ≡ log_text xs ++ log_text ys
log_text-append [] ys = refl
log_text-append (c ∷ cs) ys =
    ap (λ (s : Bytes). line c ++ s) (log_text-append cs ys)
    ∙ sym (append_assoc (line c) (log_text cs) (log_text ys))

pub replay-append :
    (xs ys : List Change) (f : Content) → replay (xs ++ ys) f ≡ replay ys (replay xs f)
replay-append [] ys f = refl
replay-append (c ∷ cs) ys f = replay-append cs ys (apply c f)

-- If no put has expired, the loader passes over nothing.
pub current-All :
    (now : ℤ) (cs : List Change) → All (λ c. passed_over now c ≡ false) cs → current now cs ≡ cs
current-All now [] h = refl
current-All now (c ∷ cs) h = rw (h.0, current-All now cs h.1)
