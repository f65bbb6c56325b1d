-- ===== src/Tests/Diag.antt =====
-- diagbus.go over diagfile.go at concrete inputs: a second report of a failed update.
use sion_backup.Prelude.{ℕ, ◌+◌, ◌*◌, ◌/◌, ◌%◌, arith, ◌≤◌, ◌≡◌, refl, true, none, [], ◌∷◌, length}
use sion_backup.Prelude.Text.{Text, codes, trim_space}
use sion_backup.Prelude.Time.{day}
use sion_backup.Diag.{
  Report, update_failed, record_report, stamped, scrub, replace_homes, after_home, after_match,
  after_prefix, skip_name,
}
use sion_backup.Diag.Files.{
  Dir, report, DirFaults, listed, readable, report_names, file, name_of, files, text_lt,
}
use sion_backup.Diag.Stamp.{Date, padded, date_text, stamp}
use sion_backup.Diag.Stamped.{IsCalendar}
use sion_backup.Diag.Order.{IsOrdered, with_name}
use sion_backup.Diag.Newest.{newest, record_report-newest}

home_is_hidden : scrub (codes "open /home/ana/x: denied") ≡ codes "open ~/x: denied"
unfolding scrub replace_homes after_match after_home after_prefix skip_name trim_space
home_is_hidden = refl

abbrev fails : Report
fails = record {
  kind = update_failed;
  occurred_at = 0;
  agent = [];
  os = [];
  install_id = [];
  node_id = codes "ana";
  step = [];
  prior_version = codes "1.0";
  rollback_outcome = [];
  restored_version = [];
  detail = codes "no";
}

abbrev fine : DirFaults
fine = record {
  listing = listed;
  reading = λ n. readable;
  removing = λ n. none;
  encoding = none;
  writing = none;
  renaming = none;
}

-- Twelve months of 31 days.
abbrev date : ℕ → Date
date d = record { year = d / 372; month = d / 31 % 12 + 1; day_of_month = d % 31 + 1 }

date-IsCalendar : IsCalendar date
date-IsCalendar = record {
  years = λ d h. omega arith;
  months = λ d h. omega arith;
  days = λ d h. omega arith;
  moves_on = λ d e h k. omega arith;
}

-- The layout, with this calendar.
date_in_name : stamp date (753999 * day + 32825042000001) ≡ codes "20261118T090705.042"
unfolding stamp date_text padded
date_in_name = refl

abbrev base : Text → Text
base n = n

abbrev dir : Dir
dir = file (codes "2025-a.json") (report fails) ∷ []

abbrev v1 : Text
v1 = codes "1.1"

-- A millisecond later.
abbrev later : Report
later = record fails { occurred_at = 1000000 }

record_report-newest_example :
    let end = record_report (files base date v1 day fine) true v1 [] day fails dir in
    let all = with_name (name_of date v1 (stamped v1 [] day fails)) (report_names dir) in
    (end.1 ≡ none)
    × (report_names end.0 ≡ newest all)
    × (length (report_names end.0) ≤ 20)
    × IsOrdered end.0
    × (text_lt (name_of date (codes "f") fails) (name_of date (codes "a") later) ≡ true)
record_report-newest_example =
    record_report-newest base date v1 v1 [] day fine fails fails later dir (codes "f") (codes "a")
      (record { lists = refl; removes = λ n. refl; encodes = refl; writes = refl; renames = refl })
      date-IsCalendar (tt, tt) (omega arith) (omega arith) (omega arith)
