-- ===== src/Daemon/Updating.antt =====
-- cmd/sion-backup/update.go: selfUpdate, which the daemon calls after each backup.
use sion_backup.Prelude.{Bool, true, false, List, [], ◌∷◌, ◌++◌, not, if◌then◌else◌, pos, ltb_ℤ}
use sion_backup.Prelude.Text.{Text}
use sion_backup.Prelude.Time.{Time, Duration, sub_time, hour}
use sion_backup.SelfUpdate.Disk.{Disk, Faults}
use sion_backup.SelfUpdate.Apply.{
  Answer, Fetch, Applied, installed, nothing_to_do, failed, ApplyError, not_writable, apply,
}

abbrev pub update_check_every : Duration
update_check_every = pos hour

-- What selfUpdate changes: the files beside the binary, lastUpdateCheck, applied, and the reports of
-- failed updates.
pub record Install : Type 0 where
  pub disk : Disk
  pub last_check : Time
  pub applied : Bool
  pub failures : List ApplyError

-- on: self-update is switched on and available; current: the running version.
pub record Updates : Type 0 where
  pub on : Bool
  pub current : Text
  pub faults : Faults
  pub answer : Answer
  pub fetch : Fetch

-- A binary that may not be replaced is the one failure that is not reported.
unfoldable pub is_unwritable : ApplyError → Bool
is_unwritable not_writable = true
is_unwritable e = false

abbrev pub after_apply : Install → Disk × Applied → Install × Bool
after_apply i (d, installed r) = (record i { disk = d; applied = true }, true)
after_apply i (d, nothing_to_do) = (record i { disk = d }, false)
after_apply i (d, failed e) = (
  record i { disk = d; failures = if is_unwritable e then i.failures else i.failures ++ e ∷ [] },
  false,
)

unfoldable pub self_update : Updates → Bool → Time → Install → Install × Bool
self_update u running now i =
    if not u.on
    then (i, false)
    else if running
    then (i, false)
    else if ltb_ℤ (sub_time now i.last_check) update_check_every
    then (i, false)
    else after_apply (record i { last_check = now })
        (apply u.faults u.current u.answer u.fetch i.disk)
