-- ===== src/World.antt =====
-- What the code asks of the C library, as explicit state: the heap, the clock and the two files of
-- src/persistence.c.
use in_mem_db.Base.{
  ◌||◌, ℕ, suc, ◌+◌, ◌-◌, Bool, true, false, Option, ◌++◌, Bytes, ℤ, take, if◌then◌else◌, ltb,
}

-- `heap n`, `clock n`, `io n` are the answers to the n-th call from now of the allocator, of
-- `time(NULL)`, and of a stdio call. When a stdio call fails, `torn` says how many of the bytes in
-- question have reached the file. `live` counts the blocks that are allocated and not yet freed;
-- `overrun` tells whether a write has gone beyond its block.
pub record World : Type 0 where
  pub heap : ℕ → Bool
  pub live : ℕ
  pub clock : ℕ → ℤ
  pub io : ℕ → Bool
  pub torn : ℕ → ℕ
  pub aof : Option Bytes
  pub tmp : Option Bytes
  pub overrun : Bool

-- An action on the world.
abbrev pub Run {ℓ} : Type ℓ → Type ℓ
Run A = World → A × World

infixl 5 ◌>>=◌ ◌>>◌
abbrev pub ◌>>=◌ {ℓ κ} : {A : Type ℓ} {B : Type κ} → Run A → (A → Run B) → Run B
◌>>=◌ m f w = let (a, w') = m w in f a w'

abbrev pub ◌>>◌ {ℓ κ} : {A : Type ℓ} {B : Type κ} → Run A → Run B → Run B
m >> k = m >>= λ _. k

abbrev pub pure {ℓ} : {A : Type ℓ} → A → Run A
pure a w = (a, w)

abbrev pub ahead {ℓ} : {A : Type ℓ} → (ℕ → A) → ℕ → A
ahead f n = f (suc n)

-- `malloc` or `calloc`: whether the block was granted
unfoldable pub malloc : Run Bool
malloc w =
    (w.heap 0, record w { heap = ahead w.heap; live = if w.heap 0 then w.live + 1 else w.live })

-- Writing `n` bytes from the beginning of a block of `size` bytes.
unfoldable pub store : ℕ → ℕ → Run (Unit {0})
store size n w = (tt, record w { overrun = ltb size n || w.overrun })

unfoldable pub free : Run (Unit {0})
free w = (tt, record w { live = w.live - 1 })

-- `time(NULL)`
unfoldable pub time : Run ℤ
time w = (w.clock 0, record w { clock = ahead w.clock })

-- the answer to one stdio call that is not a write
unfoldable pub io_call : Run Bool
io_call w = (w.io 0, record w { io = ahead w.io; torn = ahead w.torn })

-- Writing to a stream whose buffer holds `pending`: the answer, and the buffer.
unfoldable pub fprintf : Bytes → Bytes → Run (Bool × Bytes)
fprintf pending text w = (
  (w.io 0, pending ++ (if w.io 0 then text else take (w.torn 0) text)),
  record w { io = ahead w.io; torn = ahead w.torn },
)

-- A property of both branches of a test.
pub if-either {ℓ κ} :
    {A : Type ℓ} (P : A × World → Type κ) (b : Bool) (m n : Run A) (w : World)
    → P (m w)
    → P (n w)
    → P ((if b then m else n) w)
if-either P true m n w p q = p
if-either P false m n w p q = q
