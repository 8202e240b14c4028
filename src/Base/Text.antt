-- ===== src/Base/Text.antt =====
-- C strings as lists of bytes, and what the code uses of <string.h> and <ctype.h> ("C" locale).
use Prim.Native.Nat.{ℕ, ◌-◌}
use Prim.Native.Char.{code}
use Prim.Native.String.{String}
use mathlib.Core.Path.{◌≡◌, refl}
use mathlib.Core.Logic.{◌≢◌, ◌↔◌}
use mathlib.Core.Bool.{Bool, true, false, ◌&&◌, ◌||◌}
use mathlib.Core.List.{List, [], ◌∷◌}
use native.Mathlib.Omega.{arith}
use in_mem_db.Base.Tests.{leb, ◌==◌, if◌then◌else◌}

abbrev pub Bytes : Type 0
Bytes = List ℕ

-- The bytes of a literal, which is ASCII.
abbrev pub codes : String → Bytes
codes String.[] = []
codes (String.◌∷◌ c s) = code c ∷ codes s

-- `strcmp(a, b) == 0`
unfoldable pub str_eq : Bytes → Bytes → Bool
str_eq [] [] = true
str_eq [] (d ∷ b) = false
str_eq (c ∷ a) [] = false
str_eq (c ∷ a) (d ∷ b) = c == d && str_eq a b

pub str_eq_refl : (a : Bytes) → str_eq a a ≡ true
unfolding str_eq
str_eq_refl [] = refl
str_eq_refl (c ∷ a) = ground (arith, str_eq_refl a)

pub str_eq→eq : (a b : Bytes) → str_eq a b ≡ true → a ≡ b
unfolding str_eq
str_eq→eq [] [] h = refl
str_eq→eq [] (d ∷ b) h = cc
str_eq→eq (c ∷ a) [] h = cc
str_eq→eq (c ∷ a) (d ∷ b) h = ground (arith, str_eq→eq a b)

pub str_eq_iff : (a b : Bytes) → (str_eq a b ≡ true) ↔ (a ≡ b)
str_eq_iff a b = (str_eq→eq a b, λ e. rw e (str_eq_refl b))

-- Equal texts compare alike.
pub str_eq_agree : (a k q : Bytes) → str_eq a k ≡ true → str_eq a q ≡ str_eq k q
str_eq_agree a k q h = rw (str_eq→eq a k h)

pub str_eq_symm : (a b : Bytes) → str_eq a b ≡ str_eq b a
unfolding str_eq
str_eq_symm [] [] = refl
str_eq_symm [] (d ∷ b) = refl
str_eq_symm (c ∷ a) [] = refl
str_eq_symm (c ∷ a) (d ∷ b) = ground (arith, str_eq_symm a b)

-- `isspace`: the blank, and \t \n \v \f \r
unfoldable pub is_space : ℕ → Bool
is_space c = c == b' ' || (leb 9 c && leb c 13)

unfoldable pub is_digit : ℕ → Bool
is_digit c = leb b'0' c && leb c b'9'

unfoldable pub to_upper : ℕ → ℕ
to_upper c = if leb b'a' c && leb c b'z' then c - 32 else c

-- What a C function sees of a buffer: the bytes before the first NUL.
unfoldable pub c_string : Bytes → Bytes
c_string [] = []
c_string (c ∷ s) = let rest = c_string s in if c == 0 then [] else c ∷ rest

-- A byte that may stand in a C string.
abbrev pub IsCharacter : ℕ → Type 0
IsCharacter c = c ≢ 0
