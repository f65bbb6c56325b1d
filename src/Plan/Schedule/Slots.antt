-- ===== src/Plan/Schedule/Slots.antt =====
-- business/domain/plan/planbus/schedule.go: the slots of a day are its valid times, jittered, in order.
use mathlib.Core.List.{reverse, reverse-cons}
use sion_backup.Prelude.{
  ℕ, suc, ◌+◌, ◌≤◌, ◌≡◌, List, [], ◌∷◌, ◌++◌, ltb, ◌==◌, if◌then◌else◌, All, All-append, inl, inr,
  arith, refl, Bool-cases, ltb→lt, ◌∙◌,
}
use sion_backup.Prelude.Text.{Text}
use sion_backup.Prelude.Time.{Time, Calendar}
use sion_backup.Plan.Schedule.{Schedule, sink, sort_onto, listed_slots, slots_back, slots_on}

abbrev pub Descending : List Time → Type 0
Descending [] = Unit
Descending (x ∷ xs) = All (λ y. y ≤ x) xs × Descending xs

abbrev pub Ascending : List Time → Type 0
Ascending [] = Unit
Ascending (x ∷ xs) = All (λ y. x ≤ y) xs × Ascending xs

-- How often a time stands in a list.
unfoldable pub count : Time → List Time → ℕ
count t [] = 0
count t (x ∷ xs) = if t == x then suc (count t xs) else count t xs

All-sink : (P : Time → Type 0) (x : Time) (ys : List Time) → P x → All P ys → All P (sink x ys)
unfolding sink
All-sink P x [] h a = (h, tt)
All-sink P x (y ∷ ys) h a = elim (Bool-cases (ltb x y)) [
  | inl e ↦ rw e (a.0, All-sink P x ys h a.1)
  | inr e ↦ rw e (h, a)
]

All-weaken : (a b : Time) (ys : List Time) → a ≤ b → All (λ y. y ≤ a) ys → All (λ y. y ≤ b) ys
All-weaken a b [] h l = tt
All-weaken a b (y ∷ ys) h l = (omega arith, All-weaken a b ys h l.1)

sink-Descending : (x : Time) (ys : List Time) → Descending ys → Descending (sink x ys)
unfolding sink
sink-Descending x [] h = (tt, tt)
sink-Descending x (y ∷ ys) h = elim (Bool-cases (ltb x y)) [
  | inl e ↦ rw e (
    unfold sink in All-sink (λ z. z ≤ y) x ys (omega (arith, ltb→lt x y e)) h.0,
    sink-Descending x ys h.1,
  )
  | inr e ↦ let le : y ≤ x = ground arith in rw e ((le, All-weaken y x ys le h.0), h)
]

count-sink : (t x : Time) (ys : List Time) → count t (sink x ys) ≡ count t (x ∷ ys)
unfolding sink count
count-sink t x [] = refl
count-sink t x (y ∷ ys) = ground (arith, count-sink t x ys)

pub All-sort_onto :
    (P : Time → Type 0) (done xs : List Time) → All P done → All P xs → All P (sort_onto done xs)
unfolding sort_onto
All-sort_onto P done [] h a = h
All-sort_onto P done (x ∷ xs) h a = All-sort_onto P (sink x done) xs (All-sink P x done a.0 h) a.1

sort_onto-Descending : (done xs : List Time) → Descending done → Descending (sort_onto done xs)
unfolding sort_onto
sort_onto-Descending done [] h = h
sort_onto-Descending done (x ∷ xs) h =
    sort_onto-Descending (sink x done) xs (sink-Descending x done h)

count-sort_onto :
    (t : Time) (done xs : List Time) → count t (sort_onto done xs) ≡ count t done + count t xs
unfolding sort_onto count
count-sort_onto t done [] = omega arith
count-sort_onto t done (x ∷ xs) =
    ground (arith, count-sort_onto t (sink x done) xs, count-sink t x done)

pub All-reverse : (P : Time → Type 0) (xs : List Time) → All P xs → All P (reverse xs)
All-reverse P [] h = h
All-reverse P (x ∷ xs) h =
    rw reverse-cons (All-append P (reverse xs) (x ∷ []) (All-reverse P xs h.1) (h.0, tt))

Ascending-append_last :
    (xs : List Time) (z : Time) → Ascending xs → All (λ y. y ≤ z) xs → Ascending (xs ++ z ∷ [])
Ascending-append_last [] z h l = (tt, tt)
Ascending-append_last (x ∷ xs) z h l =
    (All-append (λ y. x ≤ y) xs (z ∷ []) h.0 (l.0, tt), Ascending-append_last xs z h.1 l.1)

Ascending-reverse : (xs : List Time) → Descending xs → Ascending (reverse xs)
Ascending-reverse [] h = tt
Ascending-reverse (x ∷ xs) h = rw reverse-cons (
    Ascending-append_last (reverse xs) x (Ascending-reverse xs h.1)
      (All-reverse (λ y. y ≤ x) xs h.0))

count-append : (t : Time) (xs ys : List Time) → count t (xs ++ ys) ≡ count t xs + count t ys
unfolding count
count-append t [] ys = omega arith
count-append t (x ∷ xs) ys = ground (arith, count-append t xs ys)

count-append_last :
    (t x : Time) (xs ys : List Time)
    → count t xs ≡ count t ys
    → count t (xs ++ x ∷ []) ≡ count t (x ∷ ys)
unfolding count
count-append_last t x xs ys h = ground (arith, count-append t xs (x ∷ []))

count-reverse : (t : Time) (xs : List Time) → count t (reverse xs) ≡ count t xs
count-reverse t [] = refl
count-reverse t (x ∷ xs) =
    rw reverse-cons (count-append_last t x (reverse xs) xs (count-reverse t xs))

count-slots_back :
    (cal : Calendar) (s : Schedule) (node : Text) (d t : Time)
    → count t (slots_back cal s node d) ≡ count t (listed_slots cal s node d s.times)
unfolding slots_back count
count-slots_back cal s node d t =
    omega (arith, count-sort_onto t [] (listed_slots cal s node d s.times))

pub slots_back-Descending :
    (cal : Calendar) (s : Schedule) (node : Text) (d : Time) → Descending (slots_back cal s node d)
unfolding slots_back
slots_back-Descending cal s node d = sort_onto-Descending [] (listed_slots cal s node d s.times) tt

-- The slots of a day stand in ascending order, and are the jittered valid times as they are listed,
-- each as often.
pub slots_on_sorted :
    (cal : Calendar) (s : Schedule) (node : Text) (d : Time)
    → Ascending (slots_on cal s node d)
      × ((t : Time) → count t (slots_on cal s node d) ≡ count t (listed_slots cal s node d s.times))
unfolding slots_on
slots_on_sorted cal s node d = (
  Ascending-reverse (slots_back cal s node d) (slots_back-Descending cal s node d),
  λ t. count-reverse t (slots_back cal s node d) ∙ count-slots_back cal s node d t,
)
