-- ===== src/Server/Table.antt =====
-- The table of clients of src/server.c when a slot is taken or freed.
use in_mem_db.Base.{
  ℕ, ◌+◌, Option, none, some, List, [], ◌∷◌, ◌++◌, ◌≡◌, ◌≢◌, inl, inr, ◌∙◌, ap, sym, arith, length,
  length-append, All, subst,
}
use in_mem_db.Server.{Client, Output, max_clients, close_client, accept_client, reset, hang_up}
use in_mem_db.Server.Buffer.{reset-fd}
use in_mem_db.Server.Slots.{
  IsKept, IsAbsent, IsUnique, taken, reset-IsKept, close_client-cases, accept_client-cases, amount,
  slots_of, amount-append,
}

-- The table has its 16 slots, each in order, no descriptor twice; and every descriptor has a slot or was
-- closed as often as `accept` returned it, which `opened` lists.
pub record IsServing (opened : List ℕ) (clients : List Client) (out : Output) : Type 0 where
  pub kept : All IsKept clients
  pub unique : IsUnique clients
  pub size : length clients ≡ max_clients
  pub count : (x : ℕ) → slots_of x clients + amount x out.closed ≡ amount x opened

slots_of-append : (x : ℕ) (s t : List Client) → slots_of x (s ++ t) ≡ slots_of x s + slots_of x t
slots_of-append x [] t = omega arith
slots_of-append x (c ∷ s) t = omega (arith, slots_of-append x s t)

module _ {κ} (P : Client → Type κ) where
  All-replace :
      (before : List Client) (c c' : Client) (after : List Client)
      → All P (before ++ c ∷ after)
      → (P c → P c')
      → All P (before ++ c' ∷ after)
  All-replace [] c c' after h p = (p h.0, h.1)
  All-replace (b ∷ before) c c' after h p = (h.0, All-replace before c c' after h.1 p)

  pub All-at :
      (before : List Client) (c : Client) (after : List Client) → All P (before ++ c ∷ after) → P c
  All-at [] c after h = h.0
  All-at (b ∷ before) c after h = All-at before c after h.1

  pub All-without :
      (before : List Client) (c : Client) (after : List Client)
      → All P (before ++ c ∷ after)
      → All P (before ++ after)
  All-without [] c after h = h.1
  All-without (b ∷ before) c after h = (h.0, All-without before c after h.1)

IsUnique-replace :
    (before : List Client) (c c' : Client) (after : List Client)
    → IsUnique (before ++ c ∷ after)
    → ((fd : ℕ) → c'.fd ≡ some fd → IsAbsent fd (before ++ after))
    → IsUnique (before ++ c' ∷ after)
IsUnique-replace [] c c' after u h = (h, u.1)
IsUnique-replace (b ∷ before) c c' after u h = (
  λ fd e. All-replace (λ d. d.fd ≢ some fd) before c c' after (u.0 fd e) (λ _ e'. (h fd e').0 e),
  IsUnique-replace before c c' after u.1 (λ fd e. (h fd e).1),
)

pub IsUnique-at :
    (before : List Client) (c : Client) (after : List Client)
    → IsUnique (before ++ c ∷ after)
    → (fd : ℕ) → c.fd ≡ some fd
    → IsAbsent fd (before ++ after)
IsUnique-at [] c after u fd e = u.0 fd e
IsUnique-at (b ∷ before) c after u fd e =
    let away = IsUnique-at before c after u.1 fd e in
    (λ e'. All-at (λ d. d.fd ≢ some fd) before c after (u.0 fd e') e, away)

some-inj : {a b : ℕ} → some a ≡ some b → a ≡ b
some-inj {a} e = ap (λ (o : Option ℕ). elim o [ none ↦ a | some x ↦ x ]) e

-- One slot of the table changes.
pub IsServing-replace :
    (n n' : List ℕ) (before : List Client) (c c' : Client) (after : List Client) (out out' : Output)
    → IsServing n (before ++ c ∷ after) out
    → (IsKept c → IsKept c')
    → ((fd : ℕ) → c'.fd ≡ some fd → IsAbsent fd (before ++ after))
    → ((x : ℕ)
        → taken x c'.fd + amount x out'.closed + amount x n
          ≡ taken x c.fd + amount x out.closed + amount x n')
    → IsServing n' (before ++ c' ∷ after) out'
IsServing-replace n n' before c c' after out out' h kept apart counts = record {
  kept = All-replace IsKept before c c' after h.kept kept;
  unique = IsUnique-replace before c c' after h.unique apart;
  size = omega (arith, h.size, length-append before (c ∷ after), length-append before (c' ∷ after));
  count = λ x. omega (
    arith,
    h.count x,
    counts x,
    slots_of-append x before (c ∷ after),
    slots_of-append x before (c' ∷ after),
  );
}

pub close_client-IsServing :
    (n : List ℕ) (fd : ℕ) (clients : List Client) (out : Output)
    → IsServing n clients out
    → IsServing n (close_client fd clients out).0 (close_client fd clients out).1
close_client-IsServing n fd clients out h = elim (close_client-cases fd clients out h.unique) [
  | inl (_, e) ↦ subst (λ (q : List Client × Output). IsServing n q.0 q.1) (sym e) h
  | inr (before, c, after, shape, there, _, e) ↦
      let h' = subst (λ cs. IsServing n cs out) shape h in
      subst (λ (q : List Client × Output). IsServing n q.0 q.1) (sym e)
        (IsServing-replace n n before c (reset none c) after out (hang_up fd out) h'
          (reset-IsKept none c) (λ fd' e'. absurd (ground (arith, e', reset-fd none c)))
          (λ x. omega (
            arith,
            ap (taken x) there,
            ap (taken x) (reset-fd none c),
            amount-append x out.closed (fd ∷ []),
          )))
]

pub accept_client-IsServing :
    (n : List ℕ) (fd : ℕ) (clients : List Client) (out : Output)
    → IsServing n clients out
    → IsAbsent fd clients
    → IsServing (n ++ fd ∷ []) (accept_client fd clients out).0 (accept_client fd clients out).1
accept_client-IsServing n fd clients out h new = elim (accept_client-cases fd clients out) [
  | inl (_, e) ↦
      subst (λ (q : List Client × Output). IsServing (n ++ fd ∷ []) q.0 q.1) (sym e)
        (record {
          kept = h.kept;
          unique = h.unique;
          size = h.size;
          count = λ x.
              omega (
                arith,
                h.count x,
                amount-append x out.closed (fd ∷ []),
                amount-append x n (fd ∷ []),
              );
        })
  | inr (before, c, after, shape, free, _, e) ↦
      let h' = subst (λ cs. IsServing n cs out) shape h in
      subst (λ (q : List Client × Output). IsServing (n ++ fd ∷ []) q.0 q.1) (sym e)
        (IsServing-replace n (n ++ fd ∷ []) before c (reset (some fd) c) after out out h'
          (reset-IsKept (some fd) c)
          (λ fd' e'.
            subst (λ k. IsAbsent k (before ++ after)) (some-inj (sym (reset-fd (some fd) c) ∙ e'))
              (All-without (λ d. d.fd ≢ some fd) before c after (subst (IsAbsent fd) shape new)))
          (λ x. omega (
            arith,
            ap (taken x) free,
            ap (taken x) (reset-fd (some fd) c),
            amount-append x n (fd ∷ []),
          )))
]
