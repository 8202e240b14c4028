-- ===== src/WorkerPool/Queue/Cells.antt =====
-- What the linked list of src/worker_pool.c stands for: its tasks in order, with their addresses.
use in_mem_db.Base.{
  ℕ, Bool, true, false, Option, none, some, Bytes, List, [], ◌∷◌, ◌++◌, ◌≡◌, ◌∙◌, refl, arith, ◌==◌,
  ◌||◌, Bool-cases, inr, inl, ==_iff,
}
use in_mem_db.WorkerPool.Queue.{Task, Tasks, Queue, write}

-- A command of a client.
pub record Job : Type 0 where
  pub client_fd : ℕ
  pub command : Bytes

abbrev pub Cells : Type 0
Cells = List (ℕ × Job)

abbrev pub task_of : Job → Option ℕ → Task
task_of j p = record { client_fd = j.client_fd; command = j.command; next = p }

abbrev pub has : ℕ → Cells → Bool
has a [] = false
has a ((b, j) ∷ q) = (b == a) || has a q

abbrev pub front : Cells → Option ℕ
front [] = none
front ((a, j) ∷ q) = some a

abbrev pub back : Cells → Option ℕ
back [] = none
back ((a, j) ∷ []) = some a
back ((a, j) ∷ (b, k) ∷ q) = back ((b, k) ∷ q)

-- Each task is in its block and points at the next one, and no block stands twice.
abbrev pub Stored : Tasks → Cells → Type 0
Stored tasks [] = Unit
Stored tasks ((a, j) ∷ q) =
    (tasks a ≡ some (task_of j (front q))) × (has a q ≡ false) × Stored tasks q

pub record IsQueue (pool : Queue) (q : Cells) : Type 0 where
  pub head : pool.head ≡ front q
  pub tail : pool.tail ≡ back q
  pub stored : Stored pool.tasks q

pub Stored-write :
    (tasks : Tasks) (q : Cells) (a : ℕ) (t : Option Task)
    → has a q ≡ false
    → Stored tasks q
    → Stored (write tasks a t) q
Stored-write tasks [] a t out s = tt
Stored-write tasks ((b, j) ∷ q) a t out s =
    let rest = Stored-write tasks q a t (ground arith) s.2 in (ground arith, s.1, rest)

-- No block of the list is free.
pub not-has :
    (tasks : Tasks) (q : Cells) (a : ℕ) → Stored tasks q → tasks a ≡ none → has a q ≡ false
not-has tasks [] a s unused = refl
not-has tasks ((b, j) ∷ q) a s unused = ground (arith, not-has tasks q a s.2)

pub has-back : (q : Cells) (a : ℕ) → back q ≡ some a → has a q ≡ true
has-back [] a h = absurd (cc)
has-back ((b, j) ∷ []) a h = ground arith
has-back ((b, j) ∷ (c, k) ∷ q) a h = ground (arith, has-back ((c, k) ∷ q) a h)

-- The last block is there and points nowhere.
pub Stored-back :
    (tasks : Tasks) (q : Cells) (a : ℕ)
    → Stored tasks q
    → back q ≡ some a
    → (j : Job) × (tasks a ≡ some (task_of j none))
Stored-back tasks [] a s h = absurd (cc)
Stored-back tasks ((b, j) ∷ []) a s h = (j, ground arith)
Stored-back tasks ((b, j) ∷ (c, k) ∷ q) a s h = Stored-back tasks ((c, k) ∷ q) a s.2 h

write_other :
    (tasks : Tasks) (a b : ℕ) (t : Option Task) → (a == b) ≡ false → write tasks a t b ≡ tasks b
write_other tasks a b t h = rw h

apart : (a b : ℕ) (q : Cells) → has a q ≡ true → has b q ≡ false → (a == b) ≡ false
apart a b q inside out = elim (Bool-cases (a == b)) [
  | inr other ↦ other
  | inl same ↦ let e : a ≡ b = (==_iff a b).0 same in absurd (cc)
]

has-append :
    (a : ℕ) (q : Cells) (new : ℕ) (j : Job) → has a (q ++ (new, j) ∷ []) ≡ has a q || (new == a)
has-append a [] new j = ground arith
has-append a ((b, k) ∷ q) new j = ground (arith, has-append a q new j)

-- The pointer of the last block is set to a new one.
pub Stored-push :
    (tasks : Tasks) (q : Cells) (a new : ℕ) (j : Job) (t : Task)
    → has new q ≡ false
    → tasks new ≡ some (task_of j none)
    → Stored tasks q
    → back q ≡ some a
    → tasks a ≡ some t
    → Stored (write tasks a (some (record t { next = some new }))) (q ++ (new, j) ∷ [])
Stored-push tasks [] a new j t out at s h there = absurd (cc)
Stored-push tasks ((b, k) ∷ []) a new j t out at s h there =
    (ground arith, ground arith, (ground arith, refl, tt))
Stored-push tasks ((b, k) ∷ (c, l) ∷ q) a new j t out at s h there =
    let rest = Stored-push tasks ((c, l) ∷ q) a new j t (ground arith) at s.2 h there in
    let inside = has-back ((c, l) ∷ q) a h in
    let away = apart a b ((c, l) ∷ q) inside s.1 in
    let new_away : (new == b) ≡ false = ground arith in
    (
      write_other tasks a b (some (record t { next = some new })) away ∙ s.0,
      has-append b ((c, l) ∷ q) new j ∙ rw (s.1, new_away),
      rest,
    )

pub back-cons : (a : ℕ) (j : Job) (q : Cells) → (b : ℕ) × (back ((a, j) ∷ q) ≡ some b)
back-cons a j [] = (a, refl)
back-cons a j ((b, k) ∷ q) = back-cons b k q

pub back-append : (q : Cells) (a : ℕ) (j : Job) → back (q ++ (a, j) ∷ []) ≡ some a
back-append [] a j = refl
back-append ((b, k) ∷ []) a j = refl
back-append ((b, k) ∷ (c, l) ∷ q) a j = back-append ((c, l) ∷ q) a j
