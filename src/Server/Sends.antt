-- ===== src/Server/Sends.antt =====
-- send_all of src/server.c.
use in_mem_db.Base.{
  ℕ, zero, suc, ◌+◌, ◌≤◌, Bool, true, false, Option, none, some, List, [], ◌∷◌, ◌++◌, Bytes, ◌≡◌,
  ◌∙◌, ap, sym, refl, arith, length, length-drop, take, drop, append_assoc, ◌⊎◌, inl, inr,
}
use in_mem_db.Server.{Sent, interrupted, failed, sent, send_all}

-- The bytes that the answers take.
abbrev pub capacity : List Sent → ℕ
capacity [] = 0
capacity (interrupted ∷ answers) = capacity answers
capacity (failed ∷ answers) = capacity answers
capacity (sent n ∷ answers) = n + capacity answers

abbrev pub fails : List Sent → Bool
fails [] = false
fails (interrupted ∷ answers) = fails answers
fails (failed ∷ answers) = true
fails (sent n ∷ answers) = fails answers

take-drop : (n : ℕ) (s : Bytes) → take n s ++ drop n s ≡ s
take-drop zero s = refl
take-drop (suc n) [] = refl
take-drop (suc n) (c ∷ s) = ap (λ r. c ∷ r) (take-drop n s)

more_taken :
    (n : ℕ) (answers : List Sent) (s : Bytes)
    → (length s ≤ n + capacity answers) ⊎ (fails answers ≡ true)
    → (length (drop n s) ≤ capacity answers) ⊎ (fails answers ≡ true)
more_taken n answers s (inl enough) = inl (omega (arith, enough, length-drop n s))
more_taken n answers s (inr fails_there) = inr fails_there

-- If the answers of `send` take as many bytes as there are, or have an error among them,
-- `send_all` returns; what was taken is the front of the text, all of it if 1 is returned, and 0
-- is returned only for an error.
pub send_all-prefix :
    (answers : List Sent) (text : Bytes)
    → (length text ≤ capacity answers) ⊎ (fails answers ≡ true)
    → (result : Bool) × (taken : Bytes) × (rest : Bytes) × (send_all answers text
        ≡ some (result, taken))
      × (text ≡ taken ++ rest)
      × (result ≡ true → rest ≡ [])
      × (result ≡ false → fails answers ≡ true)
unfolding send_all
send_all-prefix answers [] enough = (true, [], [], refl, refl, λ _. refl, λ e. ground (arith, e))
send_all-prefix [] (c ∷ text) (inl enough) = absurd (omega (arith, enough))
send_all-prefix [] (c ∷ text) (inr no_fail) = absurd (ground (arith, no_fail))
send_all-prefix (interrupted ∷ answers) (c ∷ text) enough =
    send_all-prefix answers (c ∷ text) enough
send_all-prefix (failed ∷ answers) (c ∷ text) enough =
    (false, [], c ∷ text, refl, refl, λ e. ground (arith, e), λ _. refl)
send_all-prefix (sent n ∷ answers) (c ∷ text) enough =
    let (result, taken, rest, ran, parts, all, none_left) =
      send_all-prefix answers (drop n (c ∷ text)) (more_taken n answers (c ∷ text) enough) in
    (
      result,
      take n (c ∷ text) ++ taken,
      rest,
      ap
          (λ (o : Option (Bool × Bytes)). elim o [
            | none ↦ none
            | some (result', taken') ↦ some (result', take n (c ∷ text) ++ taken')
          ])
          ran,
      sym (take-drop n (c ∷ text))
          ∙ ap (λ r. take n (c ∷ text) ++ r) parts
          ∙ sym (append_assoc (take n (c ∷ text)) taken rest),
      all,
      none_left,
    )
