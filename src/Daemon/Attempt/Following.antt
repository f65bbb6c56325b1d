-- ===== src/Daemon/Attempt/Following.antt =====
-- cmd/sion-backup/daemon.go: what runBackup does with a run that has finished: the report, measure,
-- checkRepository, releaseOldBucket (rotate.go) and selfUpdate.
use sion_backup.Prelude.{Option, none, some, List, [], ◌∷◌, ◌++◌, if◌then◌else◌}
use sion_backup.Prelude.Text.{Text, is_empty}
use sion_backup.Prelude.Result.{Result, ok, err}
use sion_backup.Restic.{ProcessEnd}
use sion_backup.Restic.Command.{Repository}
use sion_backup.Plan.Measurement.{Measurement, stale}
use sion_backup.Plan.Business.{PlanFault, measurement, record_measurement}
use sion_backup.Credentials.{Set}
use sion_backup.Backup.Run.{Run}
use sion_backup.Backup.Store.{mark_reported}
use sion_backup.Fleet.{event_for, Reply, landed, rejected, unreachable}
use sion_backup.Daemon.Checking.{Machine, check_repository}
use sion_backup.Daemon.Updating.{self_update}
use sion_backup.Daemon.Attempt.{Notice, finished, Daemon, Circumstances, measure_every, may_release}

-- `exec`: the restic binary; `measure_restic`: what restic's Measure makes of the world, with the size
-- it returns; `send`: the fleet's server.
module _ {S V : Type 0} (exec : List Text → S → S × ProcessEnd)
    (measure_restic : Repository → S → S × Option Measurement) (send : V → Notice → V × Reply)
    (c : Circumstances) where
  abbrev pub measured : Text → Measurement → Daemon S V → S × Option Measurement → Daemon S V
  measured url m d (s, none) = record d { world = s }
  measured url m d (s, some size) = record d {
    world = s;
    store = (record_measurement c.plan_faults url c.ends_at m.since size d.store).0;
  }

  abbrev pub measure_from :
      Repository → Text → Daemon S V → Result PlanFault Measurement → Daemon S V
  measure_from repo url d (err e) = d
  measure_from repo url d (ok m) =
      if stale m c.ends_at measure_every then measured url m d (measure_restic repo d.world) else d

  unfoldable pub measure : Repository → Text → Daemon S V → Daemon S V
  measure repo url d = measure_from repo url d (measurement c.plan_faults url c.ends_at d.store)

  abbrev pub with_machine : Daemon S V → Machine S → Daemon S V
  with_machine d m = record d { world = m.world; store = m.store; reports = m.reports }

  abbrev pub check : Repository → Text → Daemon S V → Daemon S V
  check repo url d = with_machine d (
      check_repository exec c.plan_faults repo url c.is_metered c.ends_at
        (record { world = d.world; store = d.store; reports = d.reports }))

  -- The finished run is reported, and marked if that landed.
  abbrev pub told : Run → Daemon S V → V × Reply → Daemon S V
  told r d (v, landed) = record d {
    server = v;
    runner = record d.runner {
      history = (mark_reported c.mark_fails r.id c.ends_at d.runner.history).0;
    };
  }
  told r d (v, rejected) = record d { server = v }
  told r d (v, unreachable) = record d { server = v }

  abbrev pub after_snapshot : Repository → Text → Run → Daemon S V → Daemon S V
  after_snapshot repo url r d =
      if is_empty r.snapshot_id then d else check repo url (measure repo url d)

  abbrev pub release : Set → Text → Run → Daemon S V → Daemon S V
  release set url r d =
      if may_release set r then record d { released = d.released ++ url ∷ [] } else d

  abbrev pub update : Daemon S V → Daemon S V
  update d = record d { install = (self_update c.updates d.runner.running c.ends_at d.install).0 }

  abbrev pub after_run : Set → Repository → Text → Run → Daemon S V → Daemon S V
  after_run set repo url r d = update (
      release set url r
        (after_snapshot repo url r (told r d (send d.server (finished (event_for r))))))
