-- ===== src/Plan/Schedule/NextLaws.antt =====
-- business/domain/plan/planbus/schedule.go: Next is the first slot of today and tomorrow after a time.
use sion_backup.Prelude.{
  ◌≤◌, ◌<◌, ◌≡◌, none, some, List, [], ◌∷◌, ltb, All, Any, ◌⊎◌, inl, inr, arith, refl, Bool-cases,
  Option-cases, ltb→lt, pos, subst,
}
use sion_backup.Prelude.Text.{Text}
use sion_backup.Prelude.Time.{Time, Calendar}
use sion_backup.Plan.Schedule.{Schedule, first_after, slots_on, next, or_else, or_next}
use sion_backup.Plan.Schedule.Slots.{Ascending, slots_on_sorted}

-- `u` comes after `t`, and nothing of the list lies between the two.
abbrev pub NoneBetween : Time → Time → List Time → Type 0
NoneBetween t u = All (λ x. (x ≤ t) ⊎ (u ≤ x))

All-after : (t u : Time) (xs : List Time) → All (λ y. u ≤ y) xs → NoneBetween t u xs
All-after t u [] h = tt
All-after t u (x ∷ xs) h = (inr h.0, All-after t u xs h.1)

first_after-some :
    (t u : Time) (xs : List Time)
    → Ascending xs
    → first_after t xs ≡ some u
    → (t < u) × NoneBetween t u xs × Any (λ x. x ≡ u) xs
unfolding first_after
first_after-some t u [] a h = cc
first_after-some t u (x ∷ xs) a h = elim (Bool-cases (ltb t x)) [
  | inl e ↦
      let h' : some x ≡ some u = rw e at h in
      let same : x ≡ u = cc in
      (
        rw (← same) (ltb→lt t x e),
        (inr (omega arith), All-after t u xs (subst (λ v. All (λ y. v ≤ y) xs) same a.0)),
        inl same,
      )
  | inr e ↦
      let (l, n, m) = first_after-some t u xs a.1 (rw e at h) in (l, (inl (ground arith), n), inr m)
]

first_after-none : (t : Time) (xs : List Time) → first_after t xs ≡ none → All (λ x. x ≤ t) xs
unfolding first_after
first_after-none t [] h = tt
first_after-none t (x ∷ xs) h = elim (Bool-cases (ltb t x)) [
  | inl e ↦ absurd (never (rw e at h))
  | inr e ↦ (ground arith, first_after-none t xs (rw e at h))
]
  where
    never : some x ≡ none → ⊥
    never e = cc

none_between : (t u : Time) (xs : List Time) → All (λ x. x ≤ t) xs → NoneBetween t u xs
none_between t u [] h = tt
none_between t u (x ∷ xs) h = (inl h.0, none_between t u xs h.1)

module _ (cal : Calendar) (s : Schedule) (node : Text) (after : Time) where
  abbrev pub today : List Time
  today = slots_on cal s node (cal.add_days after (pos 0))

  abbrev pub tomorrow : List Time
  tomorrow = slots_on cal s node (cal.add_days after (pos 1))

  -- What Next promises of a time: it is a slot of one of the two days, later than `after`, and no
  -- slot of today lies between; where it is tomorrow's, none of tomorrow's does either, and every
  -- slot of today is past.
  abbrev pub IsNext : Time → Type 0
  IsNext u =
      (after < u)
      × NoneBetween after u today
      × (Any (λ x. x ≡ u) today
          ⊎ Any (λ x. x ≡ u) tomorrow × All (λ x. x ≤ after) today × NoneBetween after u tomorrow)

  -- The result of Next is the zero time exactly where no slot of today or tomorrow is after the time
  -- given, and otherwise it is the first such slot of today, or of tomorrow where today has none left.
  pub next_first :
      (next cal s node after ≡ 0) × All (λ x. x ≤ after) today × All (λ x. x ≤ after) tomorrow
      ⊎ IsNext (next cal s node after)
  unfolding next
  next_first = of_today (Option-cases (first_after after today))
    where
      of_tomorrow :
          All (λ x. x ≤ after) today
          → (first_after after tomorrow ≡ none)
            ⊎ ((u : Time) × (first_after after tomorrow ≡ some u))
          → (or_else (first_after after tomorrow) 0 ≡ 0)
              × All (λ x. x ≤ after) today
              × All (λ x. x ≤ after) tomorrow
            ⊎ IsNext (or_else (first_after after tomorrow) 0)
      of_tomorrow past (inl e) = rw e (inl (refl, past, first_after-none after tomorrow e))
      of_tomorrow past (inr (u, e)) =
          let (l, n, m) =
            first_after-some after u tomorrow
              (slots_on_sorted cal s node (cal.add_days after (pos 1))).0 e in
          rw e (inr (l, none_between after u today past, inr (m, past, n)))

      of_today :
          (first_after after today ≡ none) ⊎ ((u : Time) × (first_after after today ≡ some u))
          → (or_else (or_next (first_after after today) (first_after after tomorrow)) 0 ≡ 0)
              × All (λ x. x ≤ after) today
              × All (λ x. x ≤ after) tomorrow
            ⊎ IsNext (or_else (or_next (first_after after today) (first_after after tomorrow)) 0)
      of_today (inl e) =
          rw e (
            of_tomorrow (first_after-none after today e)
              (Option-cases (first_after after tomorrow)))
      of_today (inr (u, e)) =
          let (l, n, m) =
            first_after-some after u today
              (slots_on_sorted cal s node (cal.add_days after (pos 0))).0 e in
          rw e (inr (l, n, inl m))
