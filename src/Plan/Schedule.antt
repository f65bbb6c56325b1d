-- ===== src/Plan/Schedule.antt =====
-- business/domain/plan/planbus/schedule.go: Schedule, its validation, its slots, Due and Next.
pub mod Slots
pub mod Jitter
pub mod DueLaws
pub mod NextLaws
pub mod Presets
pub mod TimesLaws
use mathlib.Core.List.{reverse}
use sion_backup.Prelude.{
  ℕ, zero, suc, ◌+◌, ◌*◌, ◌%◌, Bool, true, false, Option, none, some, List, [], ◌∷◌, ◌++◌, ℤ, pos,
  negsuc, leb, ltb, not, ◌&&◌, ◌||◌, if◌then◌else◌, leb_ℤ, ltb_ℤ,
}
use sion_backup.Prelude.Text.{Text, trim_space, cut, atoi}
use sion_backup.Prelude.Result.{Result, ok, err}
use sion_backup.Prelude.Time.{
  Time, Duration, is_zero, minute, sub_time, add_time, to_int64, fnv64a, Calendar,
}

pub record Schedule : Type 0 where
  pub times : List Text
  pub jitter_minutes : ℤ
  pub min_interval : Duration

pub data TimeError : Type 0 where
  not_a_time bad_hour bad_minute : TimeError

-- The int of an hour or a minute, if it is at most `top`.
abbrev pub within : Option ℤ → ℕ → Option ℕ
within (some (pos n)) top = if leb n top then some n else none
within (some (negsuc n)) top = none
within none top = none

abbrev pub minute_of : ℕ → Option ℕ → Result TimeError (ℕ × ℕ)
minute_of h (some m) = ok (h, m)
minute_of h none = err bad_minute

abbrev pub hour_of : Option ℕ → Text → Result TimeError (ℕ × ℕ)
hour_of (some h) m = minute_of h (within (atoi m) 59)
hour_of none m = err bad_hour

abbrev pub of_cut : Option (Text × Text) → Result TimeError (ℕ × ℕ)
of_cut (some (h, m)) = hour_of (within (atoi h) 23) m
of_cut none = err not_a_time

unfoldable pub parse_time_of_day : Text → Result TimeError (ℕ × ℕ)
parse_time_of_day s = of_cut (cut b':' (trim_space s))

pub data ScheduleError : Type 0 where
  no_times negative_jitter negative_interval : ScheduleError
  bad_time : TimeError → ScheduleError

abbrev pub time_error : Result TimeError (ℕ × ℕ) → Option TimeError
time_error (ok t) = none
time_error (err e) = some e

-- The first time that does not parse.
unfoldable pub first_bad : List Text → Option TimeError
first_bad [] = none
first_bad (t ∷ ts) = elim (time_error (parse_time_of_day t)) [
  | some e ↦ some e
  | none ↦ first_bad ts
]

abbrev pub bounds_error : Option TimeError → Schedule → Option ScheduleError
bounds_error (some e) s = some (bad_time e)
bounds_error none s =
    if ltb_ℤ s.jitter_minutes (pos 0)
    then some negative_jitter
    else if ltb_ℤ s.min_interval (pos 0)
    then some negative_interval
    else none

abbrev pub is_nil {ℓ} : {A : Type ℓ} → List A → Bool
is_nil [] = true
is_nil (_ ∷ _) = false

unfoldable pub validate : Schedule → Option ScheduleError
unfolding first_bad
validate s = if is_nil s.times then some no_times else bounds_error (first_bad s.times) s

-- The offset in minutes, out of `suc j` of them, by the hash of the node and the slot's label.
unfoldable pub jitter_for : ℤ → Text → Text → ℕ
jitter_for (pos zero) node label = 0
jitter_for (pos (suc j)) node label = fnv64a (node ++ b'|' ∷ label) % suc (suc j)
jitter_for (negsuc n) node label = 0

module _ (cal : Calendar) (s : Schedule) (node : Text) where
  unfoldable pub jitter : Time → Duration
  unfolding jitter_for
  jitter slot = to_int64 (jitter_for s.jitter_minutes node (cal.label slot) * minute)

  abbrev pub slot_at : Time → Result TimeError (ℕ × ℕ) → List Time → List Time
  slot_at d (err e) rest = rest
  slot_at d (ok (h, m)) rest = add_time (cal.date d h m) (jitter (cal.date d h m)) ∷ rest

  -- The jittered times of one day in the order they are listed, those that do not parse left out.
  unfoldable pub listed_slots : Time → List Text → List Time
  unfolding jitter
  listed_slots d [] = []
  listed_slots d (t ∷ ts) = slot_at d (parse_time_of_day t) (listed_slots d ts)

-- The inner loop of the sort: the new time moves left past every later one. The sorted part is held
-- with its last time first.
unfoldable pub sink : Time → List Time → List Time
sink x [] = x ∷ []
sink x (y ∷ ys) = let rest = sink x ys in if ltb x y then y ∷ rest else x ∷ y ∷ ys

-- The outer loop: `done` is the sorted part, with its last time first.
unfoldable pub sort_onto : List Time → List Time → List Time
unfolding sink
sort_onto done [] = done
sort_onto done (x ∷ xs) = sort_onto (sink x done) xs

-- The last time that is not after `now`, the latest looked at first.
unfoldable pub latest_past : Time → List Time → Option Time
latest_past now [] = none
latest_past now (x ∷ xs) = if leb x now then some x else latest_past now xs

unfoldable pub first_after : Time → List Time → Option Time
first_after t [] = none
first_after t (x ∷ xs) = if ltb t x then some x else first_after t xs

abbrev pub or_else : Option Time → Time → Time
or_else (some t) rest = t
or_else none rest = rest

abbrev pub or_next : Option Time → Option Time → Option Time
or_next (some t) o = some t
or_next none o = o

abbrev pub look_back_days : ℕ
look_back_days = 3

abbrev pub minus_days : ℕ → ℤ
minus_days zero = pos 0
minus_days (suc n) = negsuc n

module _ (cal : Calendar) (s : Schedule) (node : Text) where
  -- slotsOn, in reverse: the latest slot first.
  unfoldable pub slots_back : Time → List Time
  slots_back d = sort_onto [] (listed_slots cal s node d s.times)

  unfoldable pub slots_on : Time → List Time
  unfolding slots_back
  slots_on d = reverse (slots_back d)

  -- The slots `back` days before the day of `now`.
  abbrev pub slots_before : Time → ℕ → List Time
  slots_before now back = slots_back (cal.add_days now (minus_days back))

  -- The loop of lastSlotAtOrBefore with `rounds` days left to look at.
  unfoldable pub last_slot_from : ℕ → ℕ → Time → Time
  last_slot_from zero back now = 0
  last_slot_from (suc rounds) back now =
      let rest = last_slot_from rounds (suc back) now in
      or_else (latest_past now (slots_before now back)) rest

  unfoldable pub last_slot : Time → Time
  unfolding last_slot_from
  last_slot now = last_slot_from (suc look_back_days) 0 now

  -- MinInterval, where there is one, has not passed.
  abbrev pub too_soon : Time → Time → Bool
  too_soon now last_run =
      ltb_ℤ (pos 0) s.min_interval && ltb_ℤ (sub_time now last_run) s.min_interval

  unfoldable pub due : Time → Time → Bool
  due now last_run =
      if is_zero last_run
      then true
      else if too_soon now last_run
      then false
      else if is_zero (last_slot now)
      then false
      else ltb last_run (last_slot now)

  -- Next: the first slot after a time, today's before tomorrow's.
  unfoldable pub next : Time → Time
  next after =
      or_else
        (or_next (first_after after (slots_on (cal.add_days after (pos 0))))
          (first_after after (slots_on (cal.add_days after (pos 1)))))
        0
