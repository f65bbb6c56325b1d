-- ===== src/Tests/SelfUpdate.antt =====
-- foundation/selfupdate at concrete inputs: a machine on v1.4.0 that is offered v1.5.0.
use sion_backup.Prelude.{◌≡◌, ◌≤◌, refl, Bool, true, false, none, some, [], ◌∷◌, arith, length}
use sion_backup.Prelude.Text.{codes, contains, is_space, trim_right, atoi, split, trim_space}
use sion_backup.SelfUpdate.Version.{parse, newer}
use sion_backup.SelfUpdate.Disk.{
  Disk, Faults, Binary, no_faults, state, Slot, exe, staged, back, smoke_test, rename, Probation,
}
use sion_backup.SelfUpdate.Swap.{move_back}
use sion_backup.SelfUpdate.Refused.{refused_lines, refuses, max_refused}
use sion_backup.SelfUpdate.Refused.Parsing.{IsClean}
use sion_backup.SelfUpdate.Probation.{read, start, write}
use sion_backup.SelfUpdate.Probation.Ends.{StartEnds, start-StartEnds}
use sion_backup.SelfUpdate.Probation.Tries.{restarts, tries}
use sion_backup.SelfUpdate.Probation.CrashLoop.{CrashEnds, three_starts, crash_loop_recovers}
use sion_backup.SelfUpdate.Apply.{Release, offered, fetched, installed, apply}
use sion_backup.SelfUpdate.Apply.Ends.{ApplyEnds, apply-ApplyEnds}

abbrev good : Binary
good = record { runs = true; output = codes "sion-backup v1.4.0"; sum = codes "aa" }

abbrev bad : Binary
bad = record { runs = true; output = codes "sion-backup v1.5.0"; sum = codes "bb" }

abbrev machine : Disk
machine = record {
  exe_file = some good;
  old_file = none;
  staged_file = none;
  back_file = none;
  probation_file = none;
  refused_file = none;
}

abbrev release : Release
release = record { version = codes "v1.5.0"; url = codes "https"; sha256 = codes "BB" }

-- The disk once the release is installed.
abbrev updated : Disk
updated = record machine {
  exe_file = some bad;
  old_file = some good;
  probation_file =
      some (state (record { installed = codes "v1.5.0"; previous = codes "v1.4.0"; starts = 0 }));
}

abbrev on_trial : Probation
on_trial = record { installed = codes "v1.5.0"; previous = codes "v1.4.0"; starts = 0 }

release-IsClean : IsClean (codes "v1.5.0")
unfolding is_space trim_right
release-IsClean = record {
  one_line = (refl, (refl, (refl, (refl, (refl, (refl, tt))))));
  first = refl;
  trimmed = refl;
}

good_runs : smoke_test (some good) (codes "v1.4.0") ≡ true
unfolding smoke_test contains
good_runs = refl

none_refused : length (refused_lines machine.refused_file) ≤ max_refused
unfolding refused_lines
none_refused = omega arith

apply-ApplyEnds_example :
    ApplyEnds
      (codes "v1.4.0")
      (offered release)
      (fetched bad)
      machine
      good
      (apply no_faults (codes "v1.4.0") (offered release) (fetched bad) machine)
apply-ApplyEnds_example =
    apply-ApplyEnds no_faults (codes "v1.4.0") (offered release) (fetched bad) machine good refl

on_trial-read : read updated ≡ some on_trial
unfolding read
on_trial-read = refl

crash_loop_recovers_example :
    CrashEnds bad good (codes "v1.4.0") (start no_faults (restarts three_starts updated))
    × (refuses (start no_faults (restarts three_starts updated)).0 (codes "v1.5.0") ≡ true)
crash_loop_recovers_example =
    crash_loop_recovers updated on_trial bad good on_trial-read refl refl refl good_runs
      release-IsClean none_refused

start-StartEnds_example :
    StartEnds bad updated (start no_faults updated) (start no_faults updated).1.outcome
start-StartEnds_example = start-StartEnds no_faults updated bad refl

-- A disk that refuses to move the staged binary into place.
abbrev from_staged : Slot → Slot → Bool
from_staged staged b = true
from_staged a b = false

abbrev install_refused : Faults
install_refused = record no_faults { rename = from_staged }

abbrev downloaded : Disk
downloaded = record machine { staged_file = some bad }

abbrev from_back : Slot → Slot → Bool
from_back back exe = true
from_back a b = false

-- A disk that refuses the last rename of a rollback.
abbrev last_refused : Faults
last_refused = record no_faults { rename = from_back }

-- The failed binary stays, and the previous one is left where no later start looks for it.
previous_left_as_back :
    ((move_back last_refused updated).0.back_file ≡ some good)
    × ((move_back last_refused updated).0.old_file ≡ none)
unfolding move_back rename
previous_left_as_back = (refl, refl)

three_tries : tries (no_faults ∷ no_faults ∷ no_faults ∷ []) updated ≡ 3
unfolding tries start read write
three_tries = refl

-- A build between two tags is neither replaced nor installed.
between_tags :
    (newer (codes "v1.4.0-3-gabc1234") (codes "v1.5.0") ≡ false)
    × (newer (codes "dev") (codes "v9.0.0") ≡ false)
unfolding newer parse trim_space split atoi
between_tags = (refl, refl)
