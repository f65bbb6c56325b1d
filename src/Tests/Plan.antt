-- ===== src/Tests/Plan.antt =====
-- business/domain/plan at concrete inputs, in a location that keeps UTC.
use sion_backup.Prelude.{
  suc, ◌≡◌, ◌<◌, ◌+◌, ◌-◌, ◌*◌, ◌/◌, ◌%◌, refl, true, false, [], ◌∷◌, arith, inl, Any, ℤ, pos,
  negsuc,
}
use sion_backup.Prelude.Text.{codes, trim_space, cut, atoi, text_eq}
use sion_backup.Prelude.Time.{
  Time, Calendar, minute, hour, day, to_int64, add_time, fnv64a, sub_time,
}
use sion_backup.Plan.Schedule.{
  Schedule, slots_on, slots_back, next, due, too_soon, look_back_days, parse_time_of_day,
  latest_past, first_after, listed_slots, sort_onto, last_slot,
}
use sion_backup.Plan.Schedule.DueLaws.{FoundIn, due_sound, due_complete}
use sion_backup.Plan.Schedule.Presets.{same_times, preset, thrice_daily, hourly, thrice, every_hour}

-- Days are counted from the zero time; the label of a time is its minute in the day.
abbrev pub utc_add : Time → ℤ → Time
utc_add t (pos n) = t + n * day
utc_add t (negsuc n) = t - suc n * day

abbrev pub utc : Calendar
utc = record {
  date = λ t h m. t / day * day + h * hour + m * minute;
  add_days = utc_add;
  label = λ t. (48 + t % day / minute) ∷ [];
}

-- Twice a day, without jitter and at most once an hour.
abbrev twice : Schedule
twice = record {
  times = codes "13:00" ∷ codes " 09:30" ∷ [];
  jitter_minutes = pos 0;
  min_interval = pos hour;
}

-- Four in the afternoon of the tenth day.
abbrev four_pm : Time
four_pm = 10 * day + 16 * hour

twice_slots :
    slots_on utc twice [] four_pm
    ≡ (10 * day + 9 * hour + 30 * minute) ∷ (10 * day + 13 * hour) ∷ []
unfolding slots_on parse_time_of_day cut trim_space atoi listed_slots to_int64 add_time sort_onto
twice_slots = refl

-- Missed at one, opened at four: due, if the last run was in the morning.
missed : due utc twice [] four_pm (10 * day + 10 * hour) ≡ true
unfolding due slots_on parse_time_of_day cut trim_space atoi listed_slots to_int64 add_time sub_time
    latest_past last_slot sort_onto
missed = refl

due_sound_example :
    (too_soon utc twice [] four_pm (10 * day + 10 * hour) ≡ false)
    × ((t : Time) × FoundIn utc twice [] four_pm (suc look_back_days) 0 t
        × (10 * day + 10 * hour < t))
due_sound_example = due_sound utc twice [] four_pm (10 * day + 10 * hour) missed (λ e. omega arith)

one_o_clock :
    Any (λ x. x ≡ 10 * day + 13 * hour) (slots_back utc twice [] (utc_add four_pm (pos 0)))
unfolding slots_back parse_time_of_day cut trim_space atoi listed_slots to_int64 add_time sort_onto
one_o_clock = inl refl

due_complete_example : due utc twice [] four_pm (10 * day + 10 * hour) ≡ true
due_complete_example =
    due_complete utc twice [] four_pm (10 * day + 10 * hour) (10 * day + 13 * hour) 0 waited
      (omega arith) one_o_clock (omega arith) (omega arith) (λ c h. absurd (omega arith))
  where
    waited : too_soon utc twice [] four_pm (10 * day + 10 * hour) ≡ false
    waited = unfold sub_time in refl

next_tomorrow : next utc twice [] four_pm ≡ 11 * day + 9 * hour + 30 * minute
unfolding next slots_on parse_time_of_day cut trim_space atoi listed_slots to_int64 add_time
    sort_onto first_after
next_tomorrow = refl

-- Once a day at ten to midnight, with half an hour of jitter.
abbrev late : Schedule
late = record { times = codes "23:50" ∷ []; jitter_minutes = pos 30; min_interval = pos hour }

-- Five past midnight, with that night's slot still fourteen minutes away.
abbrev past_midnight : Time
past_midnight = 11 * day + 5 * minute

-- Next looks at today and tomorrow, and skips a slot of yesterday that jitter has put after midnight;
-- Due does find it.
late_slot_skipped :
    (slots_on utc late (codes "n") four_pm ≡ (11 * day + 19 * minute) ∷ [])
    × (next utc late (codes "n") past_midnight ≡ 12 * day + 19 * minute)
    × (due utc late (codes "n") (11 * day + 19 * minute) four_pm ≡ true)
unfolding next due last_slot latest_past sub_time slots_on parse_time_of_day cut trim_space atoi
    listed_slots fnv64a to_int64 add_time sort_onto first_after
late_slot_skipped = (refl, refl, refl)

presets_read_back : (preset thrice_daily ≡ thrice) × (preset hourly ≡ every_hour)
unfolding preset thrice_daily hourly same_times trim_space text_eq
presets_read_back = (refl, refl)
