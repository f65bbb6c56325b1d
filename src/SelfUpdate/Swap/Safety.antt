-- ===== src/SelfUpdate/Swap/Safety.antt =====
-- foundation/selfupdate: what swap and rollBack leave on the disk when a rename fails.
use sion_backup.Prelude.{Option, none, some, ◌≡◌, ◌⊎◌, arith}
use sion_backup.SelfUpdate.Disk.{Disk, Faults, rename, remove, Binary}
use sion_backup.SelfUpdate.Swap.{
  MoveError, lost, swap, move_back, aside_failed, install_failed, staging_failed,
}

-- What may be on the disk after swap, by its result.
abbrev pub SwapEnds : Option Binary → Option Binary → Disk × Option MoveError → Type 0
SwapEnds was new (d, none) = (d.exe_file ≡ new) × (d.old_file ≡ was) × (d.staged_file ≡ none)
SwapEnds was new (d, some lost) = (d.exe_file ≡ none) × (d.old_file ≡ was)
SwapEnds was new (d, some e) = (d.exe_file ≡ was) × (d.staged_file ≡ new)

-- Whatever renames fail, swap of a present binary for a staged one ends in one of three ways: the
-- new binary runs and the previous one is beside it as .old; or an error, with the previous binary
-- still in place and the new one still staged; or, only where undoing failed too, no binary in place
-- and the previous one kept as .old.
pub swap-SwapEnds :
    (f : Faults) (d : Disk) (b n : Binary)
    → d.exe_file ≡ some b
    → d.staged_file ≡ some n
    → SwapEnds (some b) (some n) (swap f d)
unfolding swap rename remove
swap-SwapEnds f d b n hb hn = ground arith

-- What may be on the disk after the renames of rollBack, by their result.
abbrev pub BackEnds :
    Option Binary → Option Binary → Option Binary → Disk × Option MoveError → Type 0
BackEnds bad was kept (d, none) = (d.exe_file ≡ was) × (d.old_file ≡ bad) × (d.back_file ≡ none)
BackEnds bad was kept (d, some staging_failed) =
    (d.exe_file ≡ bad) × (d.old_file ≡ was) × (d.back_file ≡ kept)
BackEnds bad was kept (d, some aside_failed) =
    (d.exe_file ≡ bad)
    × ((d.old_file ≡ was) × (d.back_file ≡ none) ⊎ (d.old_file ≡ none) × (d.back_file ≡ was))
BackEnds bad was kept (d, some install_failed) =
    (d.exe_file ≡ bad) × (d.old_file ≡ none) × (d.back_file ≡ was)
BackEnds bad was kept (d, some lost) =
    (d.exe_file ≡ none) × (d.old_file ≡ bad) × (d.back_file ≡ was)

-- Whatever renames fail, rollBack either puts the previous binary in place with the failed one as
-- .old, or reports an error; on an error the failed binary is still in place unless undoing failed
-- too, and the previous one is still on the disk, as .old or, once it was staged, as .back.
pub move_back-BackEnds :
    (f : Faults) (d : Disk) (bad was : Binary)
    → d.exe_file ≡ some bad
    → d.old_file ≡ some was
    → BackEnds (some bad) (some was) d.back_file (move_back f d)
unfolding move_back rename
move_back-BackEnds f d bad was hb hw = ground arith
