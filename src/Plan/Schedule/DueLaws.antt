-- ===== src/Plan/Schedule/DueLaws.antt =====
-- business/domain/plan/planbus/schedule.go: Due finds a missed slot, and only a missed slot.
use sion_backup.Prelude.{
  ℕ, zero, suc, ◌+◌, ◌≤◌, ◌<◌, ◌≡◌, ◌≢◌, true, false, none, some, List, [], ◌∷◌, leb, All, Any, ◌⊎◌,
  inl, inr, arith, refl, Bool-cases, Option-cases, leb→le, subst,
}
use sion_backup.Prelude.Text.{Text}
use sion_backup.Prelude.Time.{Time, Calendar}
use sion_backup.Plan.Schedule.{
  Schedule, latest_past, slots_before, last_slot_from, last_slot, too_soon, due, look_back_days,
  minus_days,
}
use sion_backup.Plan.Schedule.Slots.{Descending, slots_back-Descending}

latest_past_mem :
    (now u : Time) (xs : List Time) → latest_past now xs ≡ some u → Any (λ x. x ≡ u) xs × (u ≤ now)
unfolding latest_past
latest_past_mem now u [] h = cc
latest_past_mem now u (x ∷ xs) h = elim (Bool-cases (leb x now)) [
  | inl e ↦
      let h' : some x ≡ some u = rw e at h in
      let same : x ≡ u = cc in (inl same, rw (← same) (leb→le x now e))
  | inr e ↦ let (m, l) = latest_past_mem now u xs (rw e at h) in (inr m, l)
]

le_of_head : (t x : Time) (xs : List Time) → All (λ y. y ≤ x) xs → Any (λ y. y ≡ t) xs → t ≤ x
le_of_head t x [] a m = absurd m
le_of_head t x (y ∷ ys) a (inl e) = rw (← e) a.0
le_of_head t x (y ∷ ys) a (inr m) = le_of_head t x ys a.1 m

-- The latest past time of a list in descending order is at least any past time in it.
latest_past_ge :
    (now t : Time) (xs : List Time)
    → Descending xs
    → Any (λ x. x ≡ t) xs
    → t ≤ now
    → (u : Time) × (latest_past now xs ≡ some u) × (t ≤ u)
unfolding latest_past
latest_past_ge now t [] d m h = absurd m
latest_past_ge now t (x ∷ xs) d m h = elim (Bool-cases (leb x now)) [
  | inl e ↦ rw e (x, refl, at_head m)
  | inr e ↦ rw e (later e m (λ k. latest_past_ge now t xs d.1 k h))
]
  where
    at_head : (x ≡ t) ⊎ Any (λ y. y ≡ t) xs → t ≤ x
    at_head (inl e) = omega arith
    at_head (inr k) = le_of_head t x xs d.0 k

    later :
        leb x now ≡ false
        → (x ≡ t) ⊎ Any (λ y. y ≡ t) xs
        → (Any (λ y. y ≡ t) xs → (u : Time) × (latest_past now xs ≡ some u) × (t ≤ u))
        → (u : Time) × (latest_past now xs ≡ some u) × (t ≤ u)
    later e (inl k) rest = absurd (ground arith)
    later e (inr k) rest = rest k

module _ (cal : Calendar) (s : Schedule) (node : Text) (now : Time) where
  abbrev slots : ℕ → List Time
  slots back = slots_before cal s node now back

  -- A slot of one of the days that the search looks at.
  abbrev pub FoundIn : ℕ → ℕ → Time → Type 0
  FoundIn rounds back u =
      (b : ℕ) × (back ≤ b) × (b < back + rounds) × Any (λ x. x ≡ u) (slots b) × (u ≤ now)

  step_back :
      (rounds back : ℕ) (u : Time) → FoundIn rounds (suc back) u → FoundIn (suc rounds) back u
  step_back rounds back u (b, l, h, m, p) = (b, omega arith, omega arith, m, p)

  found_or_zero :
      (rounds back : ℕ)
      → (last_slot_from cal s node rounds back now ≡ 0)
        ⊎ FoundIn rounds back (last_slot_from cal s node rounds back now)
  unfolding last_slot_from
  found_or_zero zero back = inl refl
  found_or_zero (suc rounds) back = elim (Option-cases (latest_past now (slots back))) [
    | inl e ↦ rw e (later (found_or_zero rounds (suc back)))
    | inr (u, e) ↦
        let (m, p) = latest_past_mem now u (slots back) e in
        rw e (inr (back, omega arith, omega arith, m, p))
  ]
    where
      later :
          (last_slot_from cal s node rounds (suc back) now ≡ 0)
            ⊎ FoundIn rounds (suc back) (last_slot_from cal s node rounds (suc back) now)
          → (last_slot_from cal s node rounds (suc back) now ≡ 0)
            ⊎ FoundIn (suc rounds) back (last_slot_from cal s node rounds (suc back) now)
      later (inl z) = inl z
      later (inr f) =
          inr (step_back rounds back (last_slot_from cal s node rounds (suc back) now) f)

  -- The days nearer than `back` hold no slot before `t`.
  abbrev pub NearerNotBefore : Time → ℕ → Type 0
  NearerNotBefore t back = (c : ℕ) → c < back → All (λ x. t ≤ x) (slots c)

  ge_of_All : (t u : Time) (xs : List Time) → All (λ x. t ≤ x) xs → Any (λ x. x ≡ u) xs → t ≤ u
  ge_of_All t u [] a m = absurd m
  ge_of_All t u (x ∷ xs) a (inl e) = rw (← e) a.0
  ge_of_All t u (x ∷ xs) a (inr m) = ge_of_All t u xs a.1 m

  slot_found :
      (rounds back b : ℕ) (t : Time)
      → back ≤ b
      → b < back + rounds
      → Any (λ x. x ≡ t) (slots b)
      → t ≤ now
      → NearerNotBefore t b
      → t ≤ last_slot_from cal s node rounds back now
  unfolding last_slot_from
  slot_found zero back b t lo hi m p near = absurd (omega arith)
  slot_found (suc rounds) back b t lo hi m p near =
      elim (Option-cases (latest_past now (slots back))) [
        | inr (u, e) ↦ rw e (at_day u e (day_cases b back lo))
        | inl e ↦ rw e (
            slot_found rounds (suc back) b t (beyond e (day_cases b back lo)) (omega arith) m p
              near)
      ]
    where
      day_cases : (b back : ℕ) → back ≤ b → (b ≡ back) ⊎ (back < b)
      day_cases b back h = omega arith

      this_day : b ≡ back → (u : Time) × (latest_past now (slots back) ≡ some u) × (t ≤ u)
      this_day e =
          latest_past_ge now t (slots back)
            (slots_back-Descending cal s node (cal.add_days now (minus_days back)))
            (subst (λ c. Any (λ x. x ≡ t) (slots c)) e m) p

      at_day : (u : Time) → latest_past now (slots back) ≡ some u → (b ≡ back) ⊎ (back < b) → t ≤ u
      at_day u e (inl k) = let (v, ev, le) = this_day k in let same : u ≡ v = cc in rw same le
      at_day u e (inr k) =
          ge_of_All t u (slots back) (near back k) (latest_past_mem now u (slots back) e).0

      beyond : latest_past now (slots back) ≡ none → (b ≡ back) ⊎ (back < b) → suc back ≤ b
      beyond e (inr k) = k
      beyond e (inl k) = let (v, ev, le) = this_day k in cc

  -- A due machine that has run before has, in the last three days and today, a slot that is past and
  -- that its last run came before; and the minimum interval since that run has passed.
  pub due_sound :
      (last_run : Time)
      → due cal s node now last_run ≡ true
      → last_run ≢ 0
      → (too_soon cal s node now last_run ≡ false)
        × ((t : Time) × FoundIn (suc look_back_days) 0 t × (last_run < t))
  unfolding due last_slot
  due_sound last_run h nz = (ground arith, found (found_or_zero (suc look_back_days) 0))
    where
      found :
          (last_slot_from cal s node (suc look_back_days) 0 now ≡ 0)
            ⊎ FoundIn (suc look_back_days) 0 (last_slot_from cal s node (suc look_back_days) 0 now)
          → (t : Time) × FoundIn (suc look_back_days) 0 t × (last_run < t)
      found (inl z) = absurd (ground arith)
      found (inr f) = (last_slot_from cal s node (suc look_back_days) 0 now, f, ground arith)

  -- A machine is due when the minimum interval since its last run has passed and some slot of today
  -- or of the three days before is past and later than that run, as long as the days nearer than that
  -- slot's hold no earlier slot.
  pub due_complete :
      (last_run t : Time) (back : ℕ)
      → too_soon cal s node now last_run ≡ false
      → back ≤ look_back_days
      → Any (λ x. x ≡ t) (slots back)
      → last_run < t
      → t ≤ now
      → NearerNotBefore t back
      → due cal s node now last_run ≡ true
  unfolding due last_slot
  due_complete last_run t back soon b m l p near =
      ground (arith, slot_found (suc look_back_days) 0 back t (omega arith) (omega arith) m p near)
