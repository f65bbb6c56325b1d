-- ===== src/Diag/Stamp.antt =====
-- business/domain/diag/stores/diagfile/diagfile.go: the time in a report's name, in the layout
-- `20060102T150405.000` of package time and in UTC. The clock is counted from midnight UTC, and a day of the
-- clock always has 24 hours; the date of a day, counted from 1 January of year 1, is an argument. A year has
-- four digits: a report with another cannot be encoded, so it has no name.
use sion_backup.Prelude.{ℕ, zero, suc, ◌+◌, ◌/◌, ◌%◌, [], ◌∷◌, ◌++◌}
use sion_backup.Prelude.Text.{Text}
use sion_backup.Prelude.Time.{Time, second, minute, hour, day}

pub record Date : Type 0 where
  pub year : ℕ
  pub month : ℕ
  pub day_of_month : ℕ

-- A number in a field of the layout: so many digits, with zeros in front.
unfoldable pub padded : ℕ → ℕ → Text
padded zero n = []
padded (suc w) n = padded w (n / 10) ++ (48 + n % 10) ∷ []

unfoldable pub date_text : Date → Text
unfolding padded
date_text d = (padded 4 d.year ++ padded 2 d.month) ++ padded 2 d.day_of_month

unfoldable pub stamp : (ℕ → Date) → Time → Text
unfolding date_text
stamp date t =
    ((((date_text (date (t / day)) ++ b'T' ∷ padded 2 (t / hour % 24))
          ++ padded 2 (t / minute % 60))
        ++ padded 2 (t / second % 60))
      ++ b'.' ∷ padded 3 (t / 1000000 % 1000))
