-- ===== src/Survey/Shapes.antt =====
-- business/domain/survey/surveybus/surveybus.go, shapeOf: two settings with one key are the same.
use sion_backup.Prelude.{
  ℕ, zero, suc, ◌+◌, ◌/◌, ◌%◌, ◌<◌, ◌≢◌, List, [], ◌∷◌, ◌++◌, ◌≡◌, inl, inr, refl, sym, arith,
  Bool-cases, All, leb, pos, negsuc, ℤ,
}
use sion_backup.Prelude.Text.{Text, itoa, digits_onto}
use sion_backup.Prelude.Digits.{itoa_injective}
use sion_backup.Survey.{Settings, shape_list, shape_of}

-- No NUL in a text, which no path of an operating system has.
abbrev pub IsPlain : Text → Type 0
IsPlain s = All (λ c. 0 < c) s

-- A root does not begin with a bar; it is a full path.
abbrev pub NoBar : Text → Type 0
NoBar [] = Unit
NoBar (c ∷ s) = c ≢ b'|'

nul_splits : (x y a b : Text) → IsPlain x → IsPlain y → x ++ 0 ∷ a ≡ y ++ 0 ∷ b → (x ≡ y) × (a ≡ b)
nul_splits [] [] a b p q e = (refl, cc)
nul_splits [] (d ∷ y) a b p q e = absurd (ground arith)
nul_splits (c ∷ x) [] a b p q e = absurd (ground arith)
nul_splits (c ∷ x) (d ∷ y) a b p q e = let (s, t) = nul_splits x y a b p.1 q.1 (cc) in (cc, t)

nul_in : (y b : Text) → IsPlain (y ++ 0 ∷ b) → ⊥
nul_in [] b p = omega (arith, p.0)
nul_in (c ∷ y) b p = nul_in y b p.1

roots_split :
    (xs ys : List Text) (a b : Text)
    → All IsPlain xs
    → All IsPlain ys
    → All NoBar xs
    → All NoBar ys
    → shape_list xs a ≡ shape_list ys b
    → (xs ≡ ys) × (a ≡ b)
unfolding shape_list
roots_split [] [] a b p q u v e = (refl, cc)
roots_split [] ([] ∷ ys) a b p q u v e = absurd (ground arith)
roots_split [] ((c ∷ y) ∷ ys) a b p q u v e = absurd (v.0 (cc))
roots_split ([] ∷ xs) [] a b p q u v e = absurd (ground arith)
roots_split ((c ∷ x) ∷ xs) [] a b p q u v e = absurd (u.0 (cc))
roots_split (x ∷ xs) (y ∷ ys) a b p q u v e =
    let (s, t) = nul_splits x y (shape_list xs a) (shape_list ys b) p.0 q.0 e in
    let (k, l) = roots_split xs ys a b p.1 q.1 u.1 v.1 t in (cc, l)

excludes_split :
    (xs ys : List Text) (a b : Text)
    → All IsPlain xs
    → All IsPlain ys
    → IsPlain a
    → IsPlain b
    → shape_list xs a ≡ shape_list ys b
    → (xs ≡ ys) × (a ≡ b)
unfolding shape_list
excludes_split [] [] a b p q m n e = (refl, cc)
excludes_split [] (y ∷ ys) a b p q m n e =
    absurd (nul_in y (shape_list ys b) (rw (sym e) (omega arith, m)))
excludes_split (x ∷ xs) [] a b p q m n e =
    absurd (nul_in x (shape_list xs a) (rw e (omega arith, n)))
excludes_split (x ∷ xs) (y ∷ ys) a b p q m n e =
    let (s, t) = nul_splits x y (shape_list xs a) (shape_list ys b) p.0 q.0 e in
    let (k, l) = excludes_split xs ys a b p.1 q.1 m n t in (cc, l)

digits_onto-IsPlain :
    (rounds n : ℕ) (rest : Text) → IsPlain rest → IsPlain (digits_onto rounds n rest)
unfolding digits_onto
digits_onto-IsPlain zero n rest p = p
digits_onto-IsPlain (suc r) n rest p = elim (Bool-cases (leb n 9)) [
  | inl e ↦ rw e (omega arith, p)
  | inr e ↦ rw e (digits_onto-IsPlain r (n / 10) ((48 + n % 10) ∷ rest) (omega arith, p))
]

itoa-IsPlain : (n : ℤ) → IsPlain (itoa n)
unfolding itoa
itoa-IsPlain (pos n) = digits_onto-IsPlain (suc n) n [] tt
itoa-IsPlain (negsuc n) = (omega arith, digits_onto-IsPlain (suc (suc n)) (suc n) [] tt)

-- The key of a figure stands for its settings alone: with roots and patterns that hold no NUL, and roots
-- that do not begin with a bar, two keys are equal only if the roots, the patterns and the limit are.
pub shape_of_injective :
    (roots roots' : List Text) (z z' : Settings)
    → All IsPlain roots
    → All IsPlain roots'
    → All NoBar roots
    → All NoBar roots'
    → All IsPlain z.excludes
    → All IsPlain z'.excludes
    → shape_of roots z ≡ shape_of roots' z'
    → (roots ≡ roots') × (z.excludes ≡ z'.excludes) × (z.larger_than_gb ≡ z'.larger_than_gb)
unfolding shape_of
shape_of_injective roots roots' z z' p p' b b' q q' e =
    let (r, k) =
      roots_split roots roots' (shape_list z.excludes (itoa z.larger_than_gb))
        (shape_list z'.excludes (itoa z'.larger_than_gb)) p p' b b' e in
    let (x, n) =
      excludes_split z.excludes z'.excludes (itoa z.larger_than_gb) (itoa z'.larger_than_gb) q q'
        (itoa-IsPlain z.larger_than_gb) (itoa-IsPlain z'.larger_than_gb) k in
    (r, x, itoa_injective z.larger_than_gb z'.larger_than_gb n)
