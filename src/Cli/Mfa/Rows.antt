-- ===== src/Cli/Mfa/Rows.antt =====
-- The rows in which the recovery codes are printed.
use ziti_ssh.Prelude.{
  ℕ, zero, suc, ◌≤◌, ◌≡◌, refl, ap, ◌∙◌, List, [], ◌∷◌, ◌++◌, take, drop, length, arith,
}
use ziti_ssh.Text.{Text}
use ziti_ssh.Cli.Mfa.{recovery_rows}
use ziti_ssh.Cli.Mfa.Laws.{concat}

take-drop : {A : Type 0} (n : ℕ) (xs : List A) → take n xs ++ drop n xs ≡ xs
take-drop zero xs = refl
take-drop (suc n) [] = refl
take-drop (suc n) (x ∷ xs) = ap (◌∷◌ x) (take-drop n xs)

length-drop_le : {A : Type 0} (n : ℕ) (xs : List A) → length (drop n xs) ≤ length xs
length-drop_le zero xs = omega arith
length-drop_le (suc n) [] = omega arith
length-drop_le (suc n) (x ∷ xs) = omega (arith, length-drop_le n xs)

-- The rows hold the codes in their order, none left out.
pub concat-recovery_rows :
    (fuel : ℕ) (recovery_codes : List Text)
    → length recovery_codes ≤ fuel
    → concat (recovery_rows fuel recovery_codes) ≡ recovery_codes
unfolding recovery_rows
concat-recovery_rows fuel [] h = refl
concat-recovery_rows zero (c ∷ cs) h = absurd (omega arith)
concat-recovery_rows (suc fuel) (c ∷ cs) h =
    ap (λ rest. c ∷ (take 4 cs ++ rest))
      (concat-recovery_rows fuel (drop 4 cs) (omega (arith, length-drop_le 4 cs)))
    ∙ ap (◌∷◌ c) (take-drop 4 cs)
