-- ===== src/Prelude/Digits.antt =====
-- strconv.Itoa: what it prints is read back by Atoi, and two numbers print alike only if they are one.
use Prim.Native.Nat.{ℕ, zero, suc, ◌+◌, ◌*◌, ◌/◌, ◌%◌, ◌≤◌, ◌<◌}
use mathlib.Core.Path.{◌≡◌, sym, ap, ◌∙◌}
use mathlib.Core.Logic.{inl, inr}
use mathlib.Core.Bool.{true}
use mathlib.Core.Option.{some}
use mathlib.Core.List.{[], ◌∷◌}
use native.Mathlib.Omega.{arith}
use sion_backup.Prelude.Tests.{leb, Bool-cases}
use sion_backup.Prelude.Lists.{All}
use sion_backup.Prelude.Int.{ℤ, pos, negsuc}
use sion_backup.Prelude.Text.{Text, is_digit, digits_from, digits_onto, itoa}

digits_onto-digits :
    (rounds n : ℕ) (rest : Text)
    → All (λ c. 48 ≤ c) rest
    → All (λ c. 48 ≤ c) (digits_onto rounds n rest)
unfolding digits_onto
digits_onto-digits zero n rest p = p
digits_onto-digits (suc r) n rest p = elim (Bool-cases (leb n 9)) [
  | inl e ↦ rw e (omega arith, p)
  | inr e ↦ rw e (digits_onto-digits r (n / 10) ((48 + n % 10) ∷ rest) (omega arith, p))
]

digit_true : (d : ℕ) → d ≤ 9 → is_digit (48 + d) ≡ true
digit_true d h = ground arith

digit_value :
    (acc d : ℕ) (rest : Text)
    → d ≤ 9
    → digits_from acc ((48 + d) ∷ rest) ≡ digits_from (acc * 10 + d) rest
unfolding digits_from
digit_value acc d rest h = rw (digit_true d h) (ap (λ x. digits_from x rest) (omega arith))

digits_from-onto :
    (rounds n : ℕ) (rest : Text)
    → n < rounds
    → digits_from 0 (digits_onto rounds n rest) ≡ digits_from n rest
unfolding digits_onto
digits_from-onto zero n rest h = absurd (omega (arith, h))
digits_from-onto (suc r) n rest h = elim (Bool-cases (leb n 9)) [
  | inl e ↦ rw e (digit_value 0 n rest (ground arith) ∙ ap (λ x. digits_from x rest) (omega arith))
  | inr e ↦ rw e (
      digits_from-onto r (n / 10) ((48 + n % 10) ∷ rest) (ground arith)
      ∙ digit_value (n / 10) (n % 10) rest (omega arith)
      ∙ ap (λ x. digits_from x rest) (omega arith))
]

some_pos : (m n : ℕ) → some m ≡ some n → m ≡ n
some_pos m n e = cc

-- The digits that are printed have the value of the number.
digits_value : (n : ℕ) → digits_from 0 (digits_onto (suc n) n []) ≡ some n
unfolding digits_from
digits_value n = digits_from-onto (suc n) n [] (omega arith)

digits_injective : (m n : ℕ) → digits_onto (suc m) m [] ≡ digits_onto (suc n) n [] → m ≡ n
digits_injective m n e =
    some_pos m n (sym (digits_value m) ∙ ap (λ x. digits_from 0 x) e ∙ digits_value n)

no_minus : (s t : Text) → All (λ c. 48 ≤ c) s → s ≡ b'-' ∷ t → ⊥
no_minus [] t a e = cc
no_minus (c ∷ s) t (h, a) e = ground arith

pub itoa_injective : (m n : ℤ) → itoa m ≡ itoa n → m ≡ n
unfolding itoa
itoa_injective (pos m) (pos n) e = ap pos (digits_injective m n e)
itoa_injective (pos m) (negsuc n) e = absurd (
    no_minus (digits_onto (suc m) m []) (digits_onto (suc (suc n)) (suc n) [])
      (digits_onto-digits (suc m) m [] tt) e)
itoa_injective (negsuc m) (pos n) e = absurd (
    no_minus (digits_onto (suc n) n []) (digits_onto (suc (suc m)) (suc m) [])
      (digits_onto-digits (suc n) n [] tt) (sym e))
itoa_injective (negsuc m) (negsuc n) e =
    ap negsuc (omega (arith, digits_injective (suc m) (suc n) (cc)))
