-- ===== src/SelfUpdate/Probation/Ends.antt =====
-- foundation/selfupdate/probation.go: how one start or one Settle ends, whatever the disk refuses.
use sion_backup.Prelude.{
  suc, Option, none, some, ◌≡◌, ◌⊎◌, inl, inr, refl, arith, leb, Bool-cases, Option-cases, ◌≢◌,
}
use sion_backup.Prelude.Text.{Text}
use sion_backup.SelfUpdate.Disk.{Disk, Faults, Probation, Binary, remove, rename}
use sion_backup.SelfUpdate.Swap.{move_back}
use sion_backup.SelfUpdate.Refused.{refuse}
use sion_backup.SelfUpdate.Probation.{
  probation_starts, read, roll_back, start, Outcome, nothing, on_probation, rolled_back, stuck,
  Start, write, given_up, start_of,
}

-- refuse touches the list and nothing else.
pub files-refuse :
    (f : Faults) (v : Text) (d : Disk)
    → ((refuse f v d).exe_file ≡ d.exe_file)
      × ((refuse f v d).old_file ≡ d.old_file)
      × ((refuse f v d).back_file ≡ d.back_file)
      × ((refuse f v d).probation_file ≡ d.probation_file)
unfolding refuse
files-refuse f v d = ground arith

-- What one start does to the binary in place, by its outcome.
abbrev pub StartEnds : Binary → Disk → Disk × Start → Outcome → Type 0
StartEnds b d r rolled_back =
    (r.0.exe_file ≡ d.old_file) × (r.0.old_file ≡ some b) × (r.0.exe_file ≢ none)
StartEnds b d r stuck = (r.0.exe_file ≡ some b) ⊎ (r.0.exe_file ≡ none) × (r.0.old_file ≡ some b)
StartEnds b d r on_probation = (r.0.exe_file ≡ some b) × (r.0.old_file ≡ d.old_file)
StartEnds b d r nothing = r.0.exe_file ≡ some b

-- The renames of rollBack, with the two outcomes that Start makes of them.
move_back_files :
    (f : Faults) (d : Disk) (b w : Binary)
    → d.exe_file ≡ some b
    → d.old_file ≡ some w
    → ((move_back f d).1 ≡ none)
        × ((move_back f d).0.exe_file ≡ some w)
        × ((move_back f d).0.old_file ≡ some b)
      ⊎ ((move_back f d).1 ≢ none)
        × (((move_back f d).0.exe_file ≡ some b)
            ⊎ ((move_back f d).0.exe_file ≡ none) × ((move_back f d).0.old_file ≡ some b))
unfolding move_back rename
move_back_files f d b w hb hw = ground arith

given_up_files :
    (f : Faults) (p : Probation) (d : Disk) (b : Binary)
    → d.exe_file ≡ some b
    → StartEnds b d (given_up f p (roll_back f p d)) (given_up f p (roll_back f p d)).1.outcome
unfolding roll_back
given_up_files f p d b hb = elim (Option-cases d.old_file) [
  | inl e ↦ ground arith
  | inr (w, e) ↦
      ground (arith, files-refuse f p.installed d, move_back_files f (refuse f p.installed d) b w)
]

start_of-StartEnds :
    (o : Option Probation) (f : Faults) (d : Disk) (b : Binary)
    → d.exe_file ≡ some b
    → StartEnds b d (start_of o f d) (start_of o f d).1.outcome
unfolding remove
start_of-StartEnds none f d b hb = ground arith
start_of-StartEnds (some p) f d b hb = elim (Bool-cases (leb (suc p.starts) probation_starts)) [
  | inl e ↦ unfold write in rw e (hb, refl)
  | inr e ↦ rw e (given_up_files f (record p { starts = suc p.starts }) d b hb)
]

-- Whatever the disk refuses, a start of a present binary leaves that binary in place unless it rolled
-- back, and then the previous binary is in place and the one given up on beside it as .old; the one
-- way to a missing binary is a rollback that reports itself stuck and has the binary as .old.
pub start-StartEnds :
    (f : Faults) (d : Disk) (b : Binary)
    → d.exe_file ≡ some b
    → StartEnds b d (start f d) (start f d).1.outcome
unfolding start
start-StartEnds f d b hb = start_of-StartEnds (read d) f d b hb
