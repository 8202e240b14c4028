-- ===== src/Server/Slots.antt =====
-- The table of clients of src/server.c: closing a descriptor, and finding a slot for a new one.
use in_mem_db.Base.{
  ℕ, ◌+◌, true, false, Option, none, some, List, [], ◌∷◌, ◌++◌, ◌≡◌, ◌≢◌, ◌⊎◌, inl, inr, ap, refl,
  arith, ◌==◌, All, Bool-cases, codes, Option-cases, if◌then◌else◌,
}
use in_mem_db.Server.{
  Client, Output, is_fd, close_client, add_client, accept_client, reset, hang_up, say,
}
use in_mem_db.Server.Buffer.{reset-Holds, reset-strchr}
use in_mem_db.Server.Receive.{IsIdle}

-- A slot whose buffer is in order and has no line left.
abbrev pub IsKept : Client → Type 0
IsKept c = IsIdle c c.fd

-- No slot has the descriptor.
abbrev pub IsAbsent : ℕ → List Client → Type 0
IsAbsent fd clients = All (λ c. c.fd ≢ some fd) clients

-- No two slots have the same descriptor.
abbrev pub IsUnique : List Client → Type 0
IsUnique [] = Unit
IsUnique (c ∷ clients) = ((fd : ℕ) → c.fd ≡ some fd → IsAbsent fd clients) × IsUnique clients

-- 1 for the descriptor `x`, 0 for another.
unfoldable pub one : ℕ → ℕ → ℕ
one x fd = if fd == x then 1 else 0

-- How often a list has the descriptor `x`.
abbrev pub amount : ℕ → List ℕ → ℕ
amount x [] = 0
amount x (fd ∷ fds) = one x fd + amount x fds

pub amount-append : (x : ℕ) (s t : List ℕ) → amount x (s ++ t) ≡ amount x s + amount x t
amount-append x [] t = omega arith
amount-append x (fd ∷ s) t = omega (arith, amount-append x s t)

abbrev pub taken : ℕ → Option ℕ → ℕ
taken x none = 0
taken x (some fd) = one x fd

-- The slots that have the descriptor `x`.
abbrev pub slots_of : ℕ → List Client → ℕ
slots_of x [] = 0
slots_of x (c ∷ clients) = taken x c.fd + slots_of x clients

-- The descriptor that `accept` returned, if it was called.
abbrev pub taken_in : Option ℕ → List ℕ
taken_in none = []
taken_in (some fd) = fd ∷ []

is_fd-cases :
    (a : Option ℕ) (fd : ℕ)
    → ((is_fd a fd ≡ true) × (a ≡ some fd)) ⊎ ((is_fd a fd ≡ false) × (a ≢ some fd))
is_fd-cases none fd = inr (refl, λ e. ground (arith, e))
is_fd-cases (some a) fd = elim (Bool-cases (a == fd)) [
  | inl same ↦ inl (same, ap some (ground arith))
  | inr other ↦ inr (other, λ e. ground (arith, e, other))
]

pub reset-IsKept : (fd : Option ℕ) (c : Client) → IsKept c → IsKept (reset fd c)
reset-IsKept fd c kept = record {
  text = [];
  holds = reset-Holds fd c kept.text kept.holds;
  no_line = reset-strchr fd c kept.text kept.holds;
  same = refl;
}

-- What closing does to the table: the slot of the descriptor is freed, no other changes.
pub close_client-cases :
    (fd : ℕ) (clients : List Client) (out : Output)
    → IsUnique clients
    → (IsAbsent fd clients × (close_client fd clients out ≡ (clients, out)))
      ⊎ ((before : List Client) × (c : Client) × (after : List Client) × (clients
            ≡ before ++ c ∷ after)
          × (c.fd ≡ some fd)
          × IsAbsent fd (before ++ after)
          × (close_client fd clients out ≡ (before ++ reset none c ∷ after, hang_up fd out)))
unfolding close_client
close_client-cases fd [] out unique = inl (record {}, refl)
close_client-cases fd (c ∷ clients) out unique = elim (is_fd-cases c.fd fd) [
  | inl (here, e) ↦ inr ([], c, clients, refl, e, unique.0 fd e, rw here)
  | inr (other, ne) ↦ elim (close_client-cases fd clients out unique.1) [
    | inl (absent, same) ↦ inl ((ne, absent), rw (other, same))
    | inr (before, d, after, e, there, absent, ran) ↦
        inr (c ∷ before, d, after, ap (λ r. c ∷ r) e, there, (ne, absent), rw (other, ran))
  ]
]

-- The first free slot, if there is one.
add_client-cases :
    (fd : ℕ) (clients : List Client)
    → (All (λ c. c.fd ≢ none) clients × (add_client fd clients ≡ none))
      ⊎ ((before : List Client) × (c : Client) × (after : List Client) × (clients
            ≡ before ++ c ∷ after)
          × (c.fd ≡ none)
          × All (λ d. d.fd ≢ none) before
          × (add_client fd clients ≡ some (before ++ reset (some fd) c ∷ after)))
unfolding add_client
add_client-cases fd [] = inl (record {}, refl)
add_client-cases fd (c ∷ clients) = elim (Option-cases c.fd) [
  | inl free ↦ inr ([], c, clients, refl, free, record {}, rw free)
  | inr (a, used) ↦
      let ne : c.fd ≢ none = λ e. ground (arith, e, used) in
      elim (add_client-cases fd clients) [
        | inl (full, e) ↦ inl ((ne, full), rw (used, e))
        | inr (before, d, after, e, free, full, ran) ↦
            inr (c ∷ before, d, after, ap (λ r. c ∷ r) e, free, (ne, full), simp (used, ran))
      ]
]

-- What accepting does to the table: the first free slot is taken, or the client is turned away.
pub accept_client-cases :
    (fd : ℕ) (clients : List Client) (out : Output)
    → (All (λ c. c.fd ≢ none) clients
        × (accept_client fd clients out
            ≡ (clients, hang_up fd (say fd (codes "ERR server busy\n") out))))
      ⊎ ((before : List Client) × (c : Client) × (after : List Client) × (clients
            ≡ before ++ c ∷ after)
          × (c.fd ≡ none)
          × All (λ d. d.fd ≢ none) before
          × (accept_client fd clients out ≡ (before ++ reset (some fd) c ∷ after, out)))
unfolding accept_client
accept_client-cases fd clients out = elim (add_client-cases fd clients) [
  | inl (full, e) ↦ inl (full, rw (e, accept_client))
  | inr (before, c, after, e, free, full, ran) ↦
      inr (before, c, after, e, free, full, rw (ran, accept_client))
]
