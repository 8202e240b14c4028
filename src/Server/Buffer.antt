-- ===== src/Server/Buffer.antt =====
-- The receive buffer of a client of src/server.c: what it holds, and writes into it.
use in_mem_db.Base.{
  ℕ, zero, suc, ◌+◌, ◌-◌, ◌<◌, Option, none, [], ◌∷◌, ◌++◌, Bytes, ◌≡◌, ◌∙◌, ap, sym, refl, arith,
  length, length-append, take, drop, set, take-append, drop-append, append_assoc, ◌^◌, ◌%◌,
}
use in_mem_db.Server.{Client, buffer_size, strchr, memcpy, consume, reset}

-- The array has the bytes `p`, a NUL behind them, and 1024 bytes in all.
pub record Holds (c : Client) (p : Bytes) : Type 0 where
  pub junk : Bytes
  pub shape : c.buffer ≡ p ++ 0 ∷ junk
  pub size : length p + suc (length junk) ≡ buffer_size
  pub filled : c.length ≡ length p

set-append : (s t : Bytes) (x y : ℕ) → set (s ++ x ∷ t) (length s) y ≡ s ++ y ∷ t
set-append [] t x y = refl
set-append (c ∷ s) t x y = ap (λ r. c ∷ r) (set-append s t x y)

-- Bytes that are written over the front of longer ones.
drop-cons :
    (s : Bytes) (n : ℕ)
    → n < length s
    → (x : ℕ) × (t : Bytes) × (drop n s ≡ x ∷ t) × (n + suc (length t) ≡ length s)
drop-cons [] n h = absurd (omega arith)
drop-cons (c ∷ s) zero h = (c, s, refl, omega arith)
drop-cons (c ∷ s) (suc n) h =
    let (x, t, e, l) = drop-cons s n (omega arith) in (x, t, e, omega (arith, l))

-- Writing `q` behind `p` and a NUL behind it, in bounds.
pub memcpy-set :
    (p q tail : Bytes)
    → length q < length tail
    → (junk : Bytes) × (set (memcpy (p ++ tail) (length p) q) (length p + length q) 0
        ≡ (p ++ q) ++ 0 ∷ junk)
      × (length (p ++ q) + suc (length junk) ≡ length p + length tail)
unfolding memcpy
memcpy-set p q tail fits =
    let long = length-append p tail in
    let (x, t, e, l) = drop-cons (p ++ tail) (length p + length q) (omega (arith, long)) in
    let both = length-append p q in
    (
      t,
      rw (take-append p tail, e)
          (ap (λ r. set r (length p + length q) 0) (sym (append_assoc p q (x ∷ t)))
            ∙ ap (λ n. set ((p ++ q) ++ x ∷ t) n 0) (sym both)
            ∙ set-append (p ++ q) t x 0),
      omega (arith, both, l, long),
    )

-- A reset slot holds nothing.
pub reset-Holds : (fd : Option ℕ) (c : Client) (p : Bytes) → Holds c p → Holds (reset fd c) []
unfolding reset
reset-Holds fd c [] h = record { junk = h.junk; shape = rw h.shape; size = h.size; filled = refl }
reset-Holds fd c (x ∷ p) h = record {
  junk = p ++ 0 ∷ h.junk;
  shape = rw h.shape;
  size = omega (arith, h.size, length-append p (0 ∷ h.junk));
  filled = refl;
}

pub reset-fd : (fd : Option ℕ) (c : Client) → (reset fd c).fd ≡ fd
unfolding reset
reset-fd fd c = refl

pub reset-strchr :
    (fd : Option ℕ) (c : Client) (p : Bytes) → Holds c p → strchr (reset fd c).buffer 10 ≡ none
unfolding strchr
reset-strchr fd c p h = ap (λ b. strchr b 10) (reset-Holds fd c p h).shape

pub consume-fd : (n : ℕ) (c : Client) → (consume n c).fd ≡ c.fd
unfolding consume
consume-fd n c = refl

-- Bytes that are received behind what the slot holds.
pub memcpy-Holds :
    (c : Client) (p q : Bytes)
    → Holds c p
    → length p + length q < buffer_size
    → Holds
        (record c {
          buffer = set (memcpy c.buffer c.length q) (length p + length q) 0;
          length = length p + length q;
        })
        (p ++ q)
memcpy-Holds c p q h fits =
    let (junk, e, n) = memcpy-set p q (0 ∷ h.junk) (omega (arith, h.size)) in
    record {
      junk = junk;
      shape =
          ap (λ (k : ℕ). set (memcpy c.buffer k q) (length p + length q) 0) h.filled
          ∙ ap (λ (b : Bytes). set (memcpy b (length p) q) (length p + length q) 0) h.shape
          ∙ e;
      size = n ∙ h.size;
      filled = sym (length-append p q);
    }

-- Taking a line and its newline out of the buffer leaves what follows them.
pub consume-Holds :
    (c : Client) (l rest : Bytes) → Holds c (l ++ 10 ∷ rest) → Holds (consume (length l) c) rest
unfolding consume
consume-Holds c l rest h =
    let long = length-append l (10 ∷ rest) in
    let left : (c.length + 2 ^ 64 - (length l + 1)) % 2 ^ 64 ≡ length rest =
      omega (arith, h.filled, h.size, long) in
    let parts : c.buffer ≡ (l ++ 10 ∷ []) ++ (rest ++ 0 ∷ h.junk) =
      h.shape
      ∙ append_assoc l (10 ∷ rest) (0 ∷ h.junk)
      ∙ sym (append_assoc l (10 ∷ []) (rest ++ 0 ∷ h.junk)) in
    let ends : length (l ++ 10 ∷ []) ≡ length l + 1 = length-append l (10 ∷ []) in
    let behind : take (length rest) (drop (length l + 1) c.buffer) ≡ rest =
      ap (λ b. take (length rest) (drop (length l + 1) b)) parts
      ∙ ap (λ n. take (length rest) (drop n ((l ++ 10 ∷ []) ++ (rest ++ 0 ∷ h.junk)))) (sym ends)
      ∙ ap (take (length rest)) (drop-append (l ++ 10 ∷ []) (rest ++ 0 ∷ h.junk))
      ∙ take-append rest (0 ∷ h.junk) in
    let total : length c.buffer ≡ buffer_size =
      ap length h.shape ∙ length-append (l ++ 10 ∷ rest) (0 ∷ h.junk) ∙ h.size in
    let none_before : 0 + length rest ≡ length rest = omega arith in
    let (junk, e, n) = memcpy-set [] rest c.buffer (omega (arith, total, h.size, long)) in
    record {
      junk = junk;
      shape =
          ap (λ (k : ℕ). set (memcpy c.buffer 0 (take k (drop (length l + 1) c.buffer))) k 0) left
          ∙ ap (λ (r : Bytes). set (memcpy c.buffer 0 r) (length rest) 0) behind
          ∙ ap (λ (k : ℕ). set (memcpy c.buffer 0 rest) k 0) (sym none_before)
          ∙ e;
      size = omega (arith, n, total);
      filled = left;
    }
