-- ===== src/WorkerPool.antt =====
-- include/worker_pool.h and src/worker_pool.c: the choice of the lock for a command.
pub mod ReadLock
pub mod Queue
pub mod System
pub mod Life
use in_mem_db.Base.{
  ℕ, zero, suc, Bytes, codes, [], ◌∷◌, Bool, true, false, is_space, leb, drop, ◌==◌, if◌then◌else◌,
  ◌&&◌, ◌+◌,
}
use in_mem_db.Stdio.{skip_space}

-- `tolower`
unfoldable pub to_lower : ℕ → ℕ
to_lower c = if leb b'A' c && leb c b'Z' then c + 32 else c

-- `strncasecmp(a, b, n) == 0`
unfoldable pub starts_same : ℕ → Bytes → Bytes → Bool
unfolding to_lower
starts_same zero a b = true
starts_same (suc n) [] [] = true
starts_same (suc n) [] (d ∷ b) = false
starts_same (suc n) (c ∷ a) [] = false
starts_same (suc n) (c ∷ a) (d ∷ b) = to_lower c == to_lower d && starts_same n a b

-- `*command == '\0' || isspace(*command)`
unfoldable pub word_ends : Bytes → Bool
word_ends [] = true
word_ends (c ∷ command) = is_space c

unfoldable pub is_read_command : Bytes → Bool
unfolding starts_same word_ends
is_read_command command =
    let name = skip_space command in
    if starts_same 3 name (codes "get")
    then word_ends (drop 3 name)
    else if starts_same 3 name (codes "ttl")
    then word_ends (drop 3 name)
    else false
