-- ===== src/Plan/Schedule/Presets.antt =====
-- business/domain/plan/planbus/schedule.go: the presets, and sameTimes, which reads them back.
use sion_backup.Prelude.{
  ℕ, zero, suc, ◌+◌, ◌-◌, ◌*◌, ◌/◌, ◌%◌, Bool, true, false, List, [], ◌∷◌, pos, if◌then◌else◌, ◌==◌,
  length,
}
use sion_backup.Prelude.Text.{Text, codes, text_eq, trim_space}
use sion_backup.Prelude.Time.{hour, minute}
use sion_backup.Plan.Schedule.{Schedule}

unfoldable pub default_schedule : Schedule
default_schedule = record {
  times = codes "13:00" ∷ [];
  jitter_minutes = pos 30;
  min_interval = pos (6 * hour);
}

-- "%02d:00"
abbrev pub top_of_hour : ℕ → Text
top_of_hour h = (48 + h / 10) ∷ (48 + h % 10) ∷ codes ":00"

-- The hours from `h` on, `rounds` of them.
unfoldable pub hours_from : ℕ → ℕ → List Text
hours_from zero h = []
hours_from (suc rounds) h = top_of_hour h ∷ hours_from rounds (suc h)

unfoldable pub hourly : Schedule
unfolding hours_from
hourly = record {
  times = hours_from 24 0;
  jitter_minutes = pos 10;
  min_interval = pos (30 * minute);
}

unfoldable pub thrice_daily : Schedule
thrice_daily = record {
  times = codes "09:00" ∷ codes "13:00" ∷ codes "21:00" ∷ [];
  jitter_minutes = pos 20;
  min_interval = pos (2 * hour);
}

unfoldable pub daily_at : Text → Schedule
unfolding default_schedule
daily_at hhmm = record default_schedule { times = trim_space hhmm ∷ [] }

-- A Go map from texts to ints, as a function.
abbrev pub Counts : Type 0
Counts = Text → ℕ

abbrev pub plus_one : Text → Counts → Counts
plus_one k m j = if text_eq k j then suc (m j) else m j

abbrev pub minus_one : Text → Counts → Counts
minus_one k m j = if text_eq k j then m j - 1 else m j

-- seen: how often each trimmed time stands in `b`.
unfoldable pub tally : Counts → List Text → Counts
tally m [] = m
tally m (t ∷ ts) = tally (plus_one (trim_space t) m) ts

unfoldable pub used_up : Counts → List Text → Bool
used_up m [] = true
used_up m (t ∷ ts) =
    let rest = used_up (minus_one (trim_space t) m) ts in
    if m (trim_space t) == 0 then false else rest

unfoldable pub same_times : List Text → List Text → Bool
unfolding tally used_up
same_times a b = if length a == length b then used_up (tally (λ k. 0) b) a else false

pub data Preset : Type 0 where
  every_hour thrice once custom : Preset

unfoldable pub preset : Schedule → Preset
unfolding same_times thrice_daily hourly
preset s =
    if length s.times == 1
    then once
    else if length s.times == 3
    then (if same_times s.times thrice_daily.times then thrice else custom)
    else if length s.times == 24
    then (if same_times s.times hourly.times then every_hour else custom)
    else custom

abbrev pub only_text : List Text → Text
only_text (t ∷ []) = t
only_text _ = []

unfoldable pub daily_time : Schedule → Text
daily_time s = only_text s.times
