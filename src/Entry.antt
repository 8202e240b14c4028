-- ===== src/Entry.antt =====
-- include/entry.h and src/entry.c
pub mod Life
use in_mem_db.Base.{
  Bool, false, not, Option, none, some, Bytes, ℤ, pos, add64, leb_ℤ, is_zero, if◌then◌else◌,
}
use in_mem_db.World.{Run, ◌>>=◌, ◌>>◌, pure, malloc, free, time}

-- `next` is the rest of the list that holds the entry.
pub record Entry : Type 0 where
  pub key : Bytes
  pub value : Bytes
  pub expires_at : ℤ

-- `none` is the null pointer
unfoldable pub entry_create : Bytes → Bytes → Run (Option Entry)
entry_create key value = do
  entry ← malloc
  if not entry then pure none else do
    key_block ← malloc
    if not key_block then (do free; pure none) else do
      value_block ← malloc
      if not value_block
          then (do free; free; pure none)
          else pure (some (record { key = key; value = value; expires_at = pos 0 }))

unfoldable pub entry_destroy : Entry → Run (Unit {0})
entry_destroy entry = do free; free; free

unfoldable pub entry_set_expiry : Entry → ℤ → Run Entry
entry_set_expiry entry seconds =
    if leb_ℤ seconds (pos 0)
    then pure (record entry { expires_at = pos 0 })
    else (do now ← time; pure (record entry { expires_at = add64 now seconds }))

unfoldable pub entry_set_expiry_at : Entry → ℤ → Entry
entry_set_expiry_at entry expires_at = record entry { expires_at = expires_at }

unfoldable pub entry_is_expired : Entry → Run Bool
entry_is_expired entry =
    if is_zero entry.expires_at
    then pure false
    else (do now ← time; pure (leb_ℤ entry.expires_at now))
