-- ===== src/SelfUpdate/Swap.antt =====
-- foundation/selfupdate: swap (selfupdate.go) and the renames of rollBack (probation.go).
pub mod Safety
use sion_backup.Prelude.{Bool, true, false, Option, none, some, ◌≡◌, if◌then◌else◌}
use sion_backup.SelfUpdate.Disk.{
  Slot, exe, old, staged, back, Disk, Faults, rename, remove, Binary, get,
}

-- `lost`: the second rename and the attempt to undo the first have both failed.
pub data MoveError : Type 0 where
  staging_failed aside_failed install_failed lost : MoveError

abbrev pub after_undo : Disk × Bool → Disk × Option MoveError
after_undo (d, true) = (d, some install_failed)
after_undo (d, false) = (d, some lost)

abbrev pub swap_install : Faults → Disk × Bool → Disk × Option MoveError
swap_install f (d, true) = (d, none)
swap_install f (d, false) = after_undo (rename f old exe d)

abbrev pub swap_aside : Faults → Disk × Bool → Disk × Option MoveError
swap_aside f (d, true) = swap_install f (rename f staged exe d)
swap_aside f (d, false) = (d, some aside_failed)

unfoldable pub swap : Faults → Disk → Disk × Option MoveError
swap f d = swap_aside f (rename f exe old (remove f old d))

abbrev pub back_install : Faults → Disk × Bool → Disk × Option MoveError
back_install f (d, true) = (d, none)
back_install f (d, false) = after_undo (rename f old exe d)

abbrev pub back_aside : Faults → Disk × Bool → Disk × Option MoveError
back_aside f (d, true) = back_install f (rename f back exe d)
back_aside f (d, false) = let (d', undone) = rename f back old d in (d', some aside_failed)

abbrev pub back_staging : Faults → Disk × Bool → Disk × Option MoveError
back_staging f (d, true) = back_aside f (rename f exe old d)
back_staging f (d, false) = (d, some staging_failed)

-- The three renames of rollBack: old to back, exe to old, back to exe.
unfoldable pub move_back : Faults → Disk → Disk × Option MoveError
move_back f d = back_staging f (rename f old back d)
