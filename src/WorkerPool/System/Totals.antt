-- ===== src/WorkerPool/System/Totals.antt =====
-- Counting the workers at a stage.
use in_mem_db.Base.{
  ℕ, zero, suc, ◌+◌, ◌≤◌, ◌<◌, List, [], ◌∷◌, ◌≡◌, ◌≢◌, refl, arith, length, get_or, set, ap, false,
  ◌∙◌, true, ◌||◌, not, ◌⊎◌, Bool-cases, inl, inr,
}
use in_mem_db.WorkerPool.System.{
  Stage, waiting, asleep, picked, reading, writing, answered, stopped, woken, broadcast, is_asleep,
  some_asleep,
}

abbrev pub reads : Stage → ℕ
reads (reading job t) = 1
reads _ = 0

abbrev pub writes : Stage → ℕ
writes (writing job t) = 1
writes _ = 0

-- A worker with a task owns its block.
abbrev pub busy : Stage → ℕ
busy waiting = 0
busy asleep = 0
busy stopped = 0
busy _ = 1

abbrev pub stops : Stage → ℕ
stops stopped = 1
stops _ = 0

abbrev pub sleeps : Stage → ℕ
sleeps asleep = 1
sleeps _ = 0

module _ (weight : Stage → ℕ) where
  abbrev pub total : List Stage → ℕ
  total [] = 0
  total (a ∷ rest) = weight a + total rest

  -- One worker goes on to another stage.
  pub total-set :
      (workers : List Stage) (i : ℕ) (old new : Stage)
      → i < length workers
      → get_or workers i stopped ≡ old
      → total (set workers i new) + weight old ≡ total workers + weight new
  total-set [] i old new inside at = absurd (omega arith)
  total-set (a ∷ rest) zero old new inside at = rw at (omega arith)
  total-set (a ∷ rest) (suc i) old new inside at =
      omega (arith, total-set rest i old new (omega arith) at)

  pub weight-≤ :
      (workers : List Stage) (i : ℕ)
      → i < length workers
      → weight (get_or workers i stopped) ≤ total workers
  weight-≤ [] i inside = absurd (omega arith)
  weight-≤ (a ∷ rest) zero inside = omega arith
  weight-≤ (a ∷ rest) (suc i) inside = omega (arith, weight-≤ rest i (omega arith))

  -- Two different workers count twice.
  pub weights-≤ :
      (workers : List Stage) (i j : ℕ)
      → i < length workers
      → j < length workers
      → i ≢ j
      → weight (get_or workers i stopped) + weight (get_or workers j stopped) ≤ total workers
  weights-≤ [] i j hi hj apart = absurd (omega arith)
  weights-≤ (a ∷ rest) zero zero hi hj apart = absurd (apart refl)
  weights-≤ (a ∷ rest) zero (suc j) hi hj apart = omega (arith, weight-≤ rest j (omega arith))
  weights-≤ (a ∷ rest) (suc i) zero hi hj apart = omega (arith, weight-≤ rest i (omega arith))
  weights-≤ (a ∷ rest) (suc i) (suc j) hi hj apart =
      omega (arith, weights-≤ rest i j (omega arith) (omega arith) (λ e. apart (ap suc e)))

-- The broadcast.
pub length-broadcast : (workers : List Stage) → length (broadcast workers) ≡ length workers
length-broadcast [] = refl
length-broadcast (a ∷ rest) = ap suc (length-broadcast rest)

pub weight-woken :
    (weight : Stage → ℕ) (a : Stage) → weight waiting ≡ weight asleep → weight (woken a) ≡ weight a
weight-woken weight waiting same = refl
weight-woken weight asleep same = same
weight-woken weight (picked job) same = refl
weight-woken weight (reading job t) same = refl
weight-woken weight (writing job t) same = refl
weight-woken weight (answered job result response) same = refl
weight-woken weight stopped same = refl

pub total-broadcast :
    (weight : Stage → ℕ) (workers : List Stage)
    → weight waiting ≡ weight asleep
    → total weight (broadcast workers) ≡ total weight workers
total-broadcast weight [] same = refl
total-broadcast weight (a ∷ rest) same =
    omega (arith, weight-woken weight a same, total-broadcast weight rest same)

pub sleeps-woken : (a : Stage) → sleeps (woken a) ≡ 0
sleeps-woken waiting = refl
sleeps-woken asleep = refl
sleeps-woken (picked job) = refl
sleeps-woken (reading job t) = refl
sleeps-woken (writing job t) = refl
sleeps-woken (answered job result response) = refl
sleeps-woken stopped = refl

pub sleeps-broadcast : (workers : List Stage) → total sleeps (broadcast workers) ≡ 0
sleeps-broadcast [] = refl
sleeps-broadcast (a ∷ rest) = omega (arith, sleeps-woken a, sleeps-broadcast rest)

pub sleeps-length : (workers : List Stage) → total sleeps workers ≤ length workers
sleeps-length [] = omega arith
sleeps-length (waiting ∷ rest) = omega (arith, sleeps-length rest)
sleeps-length (asleep ∷ rest) = omega (arith, sleeps-length rest)
sleeps-length (picked job ∷ rest) = omega (arith, sleeps-length rest)
sleeps-length (reading job t ∷ rest) = omega (arith, sleeps-length rest)
sleeps-length (writing job t ∷ rest) = omega (arith, sleeps-length rest)
sleeps-length (answered job result response ∷ rest) = omega (arith, sleeps-length rest)
sleeps-length (stopped ∷ rest) = omega (arith, sleeps-length rest)

woken-awake : (a : Stage) → sleeps a ≡ 0 → woken a ≡ a
woken-awake waiting none_sleeps = refl
woken-awake asleep none_sleeps = absurd (omega arith)
woken-awake (picked job) none_sleeps = refl
woken-awake (reading job t) none_sleeps = refl
woken-awake (writing job t) none_sleeps = refl
woken-awake (answered job result response) none_sleeps = refl
woken-awake stopped none_sleeps = refl

-- A broadcast that wakes nobody.
pub broadcast-awake :
    (workers : List Stage) → total sleeps workers ≡ 0 → broadcast workers ≡ workers
broadcast-awake [] none_sleeps = refl
broadcast-awake (a ∷ rest) none_sleeps =
    ap (λ b. b ∷ broadcast rest) (woken-awake a (omega arith))
    ∙ ap (λ (others : List Stage). a ∷ others) (broadcast-awake rest (omega arith))

is_asleep-sleeps : (a : Stage) → is_asleep a ≡ true → sleeps a ≡ 1
is_asleep-sleeps asleep h = refl
is_asleep-sleeps waiting h = absurd (cc)
is_asleep-sleeps (picked job) h = absurd (cc)
is_asleep-sleeps (reading job t) h = absurd (cc)
is_asleep-sleeps (writing job t) h = absurd (cc)
is_asleep-sleeps (answered job result response) h = absurd (cc)
is_asleep-sleeps stopped h = absurd (cc)

not_asleep-sleeps : (a : Stage) → is_asleep a ≡ false → sleeps a ≡ 0
not_asleep-sleeps asleep h = absurd (cc)
not_asleep-sleeps waiting h = refl
not_asleep-sleeps (picked job) h = refl
not_asleep-sleeps (reading job t) h = refl
not_asleep-sleeps (writing job t) h = refl
not_asleep-sleeps (answered job result response) h = refl
not_asleep-sleeps stopped h = refl

none_asleep-sleeps : (workers : List Stage) → some_asleep workers ≡ false → total sleeps workers ≡ 0
none_asleep-sleeps [] h = refl
none_asleep-sleeps (a ∷ rest) h =
    omega (arith, not_asleep-sleeps a (ground arith), none_asleep-sleeps rest (ground arith))

-- A signal goes to a worker that sleeps, or none sleeps.
pub signals-sleeps :
    (workers : List Stage) (a : Stage)
    → is_asleep a || not (some_asleep workers) ≡ true
    → (sleeps a ≡ 1) ⊎ (total sleeps workers ≡ 0)
signals-sleeps workers a h = elim (Bool-cases (is_asleep a)) [
  | inl there ↦ inl (is_asleep-sleeps a there)
  | inr awake ↦ inr (none_asleep-sleeps workers (ground arith))
]
