-- ===== src/SelfUpdate/Probation.antt =====
-- foundation/selfupdate/probation.go: begin, read, write, Start, rollBack, removeOld and Settle.
pub mod Ends
pub mod Tries
pub mod CrashLoop
pub mod Settled
use sion_backup.Prelude.{
  ℕ, suc, Bool, true, false, Option, none, some, [], if◌then◌else◌, leb, ◌⊎◌, inl, inr,
}
use sion_backup.Prelude.Text.{Text, is_empty}
use sion_backup.SelfUpdate.Disk.{
  Disk, Faults, Probation, ProbationFile, state, corrupt, Write, done, denied, torn, old, remove,
  smoke_test, Binary,
}
use sion_backup.SelfUpdate.Swap.{MoveError, move_back}
use sion_backup.SelfUpdate.Refused.{refuse}

abbrev pub probation_starts : ℕ
probation_starts = 3

-- os.WriteFile of a state; a text that is broken off does not decode.
abbrev pub written : Write → Probation → Option ProbationFile → Option ProbationFile
written done p was = some (state p)
written denied p was = was
written (torn n) p was = some corrupt

unfoldable pub write : Faults → Probation → Disk → Disk
write f p d = record d { probation_file = written f.write_probation p d.probation_file }

unfoldable pub begin : Faults → Text → Text → Disk → Disk
unfolding write
begin f installed previous d =
    write f (record { installed = installed; previous = previous; starts = 0 }) d

abbrev pub named : Probation → Option Probation
named p = if is_empty p.installed then none else some p

abbrev pub decode : Option ProbationFile → Option Probation
decode none = none
decode (some corrupt) = none
decode (some (state p)) = named p

unfoldable pub read : Disk → Option Probation
read d = decode d.probation_file

abbrev pub remove_probation : Faults → Disk → Disk
remove_probation f d = if f.remove_probation then d else record d { probation_file = none }

pub data RollBackError : Type 0 where
  no_previous previous_broken : RollBackError
  not_moved : MoveError → RollBackError

abbrev pub moved : Text → Disk × Option MoveError → Disk × (Text ⊎ RollBackError)
moved previous (d, none) = (d, inl previous)
moved previous (d, some e) = (d, inr (not_moved e))

abbrev pub roll_back_to : Option Binary → Faults → Probation → Disk → Disk × (Text ⊎ RollBackError)
roll_back_to none f p d = (d, inr no_previous)
roll_back_to (some b) f p d =
    if smoke_test (some b) p.previous
    then moved p.previous (move_back f (refuse f p.installed d))
    else (d, inr previous_broken)

unfoldable pub roll_back : Faults → Probation → Disk → Disk × (Text ⊎ RollBackError)
roll_back f p d = roll_back_to d.old_file f p d

pub data Outcome : Type 0 where
  nothing on_probation rolled_back stuck : Outcome

pub record Start : Type 0 where
  pub outcome : Outcome
  pub version : Text
  pub failed : Text
  pub starts : ℕ

abbrev pub given_up : Faults → Probation → Disk × (Text ⊎ RollBackError) → Disk × Start
given_up f p (d, inl restored) = (
  remove_probation f d,
  record { outcome = rolled_back; version = restored; failed = p.installed; starts = p.starts },
)
given_up f p (d, inr e) = (
  remove_probation f d,
  record { outcome = stuck; version = p.installed; failed = p.installed; starts = p.starts },
)

abbrev pub attempt : Faults → Probation → Disk → Disk × Start
attempt f p d =
    if leb p.starts probation_starts
    then (
      write f p d,
      record { outcome = on_probation; version = p.installed; failed = []; starts = p.starts },
    )
    else given_up f p (roll_back f p d)

abbrev pub start_of : Option Probation → Faults → Disk → Disk × Start
start_of none f d =
    (remove f old d, record { outcome = nothing; version = []; failed = []; starts = 0 })
start_of (some p) f d = attempt f (record p { starts = suc p.starts }) d

unfoldable pub start : Faults → Disk → Disk × Start
start f d = start_of (read d) f d

abbrev pub settle_of : Option Probation → Faults → Disk → Disk
settle_of none f d = d
settle_of (some p) f d =
    if f.remove_probation then d else remove f old (record d { probation_file = none })

unfoldable pub settle : Faults → Disk → Disk
settle f d = settle_of (read d) f d
