-- ===== src/Plan/Schedule/Jitter.antt =====
-- business/domain/plan/planbus/schedule.go: jitter only delays a slot, by whole minutes up to the limit.
use native.Mathlib.Nat.{mod-lt}
use sion_backup.Prelude.{
  ℕ, zero, suc, ◌+◌, ◌*◌, ◌≤◌, ◌≡◌, List, [], ◌∷◌, ◌++◌, pos, All, Any, inl, inr, arith, refl,
}
use sion_backup.Prelude.Text.{Text}
use sion_backup.Prelude.Result.{Result, ok, err}
use sion_backup.Prelude.Time.{Time, Calendar, minute, to_int64, add_time, fnv64a}
use sion_backup.Plan.Schedule.Slots.{All-reverse, All-sort_onto}
use sion_backup.Plan.Schedule.{
  Schedule, TimeError, parse_time_of_day, listed_slots, slots_on, slots_back, sort_onto, slot_at,
  jitter, jitter_for,
}

-- The largest jitter whose nanoseconds fit a duration.
abbrev pub max_jitter : ℕ
max_jitter = 153722867

jitter_for-le : (j : ℕ) (node label : Text) → jitter_for (pos j) node label ≤ j
unfolding jitter_for
jitter_for-le zero node label = omega arith
jitter_for-le (suc j) node label =
    omega (arith, mod-lt (fnv64a (node ++ b'|' ∷ label)) {m = suc (suc j)} (omega arith))

to_int64_small : (k : ℕ) → k ≤ max_jitter → to_int64 (k * minute) ≡ pos (k * minute)
unfolding to_int64
to_int64_small k h = ground arith

-- A slot of day `d`: a listed time of that day, some minutes up to `j` later.
abbrev pub IsDelayed : Calendar → Schedule → ℕ → Time → Time → Type 0
IsDelayed cal s j d t =
    (h : ℕ) × (m : ℕ) × (k : ℕ) × Any (λ w. parse_time_of_day w ≡ ok (h, m)) s.times
    × (k ≤ j)
    × (t ≡ cal.date d h m + k * minute)

jitter_minutes :
    (cal : Calendar) (s : Schedule) (node : Text) (j : ℕ) (slot : Time)
    → s.jitter_minutes ≡ pos j
    → j ≤ max_jitter
    → (k : ℕ) × (k ≤ j) × (add_time slot (jitter cal s node slot) ≡ slot + k * minute)
unfolding jitter
jitter_minutes cal s node j slot e h =
    let k = jitter_for (pos j) node (cal.label slot) in
    let le : k ≤ j = jitter_for-le j node (cal.label slot) in
    (k, le, rw (e, to_int64_small k (omega arith)) (unfold add_time in refl))

IsDelayed-weaken :
    (cal : Calendar) (s : Schedule) (j : ℕ) (d t : Time) (w : Text) (ws : List Text)
    → IsDelayed cal (record s { times = ws }) j d t
    → IsDelayed cal (record s { times = w ∷ ws }) j d t
IsDelayed-weaken cal s j d t w ws (h, m, k, a, b, c) = (h, m, k, inr a, b, c)

All-weaken_times :
    (cal : Calendar) (s : Schedule) (j : ℕ) (d : Time) (w : Text) (ws : List Text) (ts : List Time)
    → All (IsDelayed cal (record s { times = ws }) j d) ts
    → All (IsDelayed cal (record s { times = w ∷ ws }) j d) ts
All-weaken_times cal s j d w ws [] a = tt
All-weaken_times cal s j d w ws (t ∷ ts) a =
    (IsDelayed-weaken cal s j d t w ws a.0, All-weaken_times cal s j d w ws ts a.1)

module _ (cal : Calendar) (s : Schedule) (node : Text) (j : ℕ) (d : Time)
    (limit : s.jitter_minutes ≡ pos j) (small : j ≤ max_jitter) where
  slot_at-IsDelayed :
      (w : Text) (ws : List Text) (r : Result TimeError (ℕ × ℕ)) (rest : List Time)
      → parse_time_of_day w ≡ r
      → All (IsDelayed cal (record s { times = ws }) j d) rest
      → All (IsDelayed cal (record s { times = w ∷ ws }) j d) (slot_at cal s node d r rest)
  slot_at-IsDelayed w ws (err e) rest p a = All-weaken_times cal s j d w ws rest a
  slot_at-IsDelayed w ws (ok (h, m)) rest p a =
      let (k, le, e) = jitter_minutes cal s node j (cal.date d h m) limit small in
      ((h, m, k, inl p, le, e), All-weaken_times cal s j d w ws rest a)

  listed_slots-IsDelayed :
      (ws : List Text)
      → All (IsDelayed cal (record s { times = ws }) j d) (listed_slots cal s node d ws)
  unfolding listed_slots
  listed_slots-IsDelayed [] = tt
  listed_slots-IsDelayed (w ∷ ws) =
      slot_at-IsDelayed w ws (parse_time_of_day w) (listed_slots cal s node d ws) refl
        (listed_slots-IsDelayed ws)

  -- With a jitter limit of `j` minutes, small enough that its nanoseconds fit a duration, every slot
  -- of a day is one of the listed times of that day that parse, delayed by at most `j` whole minutes.
  pub slots_on-IsDelayed : All (IsDelayed cal s j d) (slots_on cal s node d)
  unfolding slots_on slots_back
  slots_on-IsDelayed =
      All-reverse (IsDelayed cal s j d) (sort_onto [] (listed_slots cal s node d s.times)) (
        All-sort_onto (IsDelayed cal s j d) [] (listed_slots cal s node d s.times) tt
          (listed_slots-IsDelayed s.times))
