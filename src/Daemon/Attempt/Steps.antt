-- ===== src/Daemon/Attempt/Steps.antt =====
-- cmd/sion-backup/daemon.go: measure and checkRepository leave the run history and the releases alone.
use sion_backup.Prelude.{Option, none, some, List, ◌≡◌, refl, inl, inr, Bool-cases}
use sion_backup.Prelude.Text.{Text, is_empty}
use sion_backup.Prelude.Result.{Result, ok, err}
use sion_backup.Restic.{ProcessEnd}
use sion_backup.Restic.Command.{Repository}
use sion_backup.Plan.Measurement.{Measurement, stale}
use sion_backup.Plan.Business.{PlanFault, measurement}
use sion_backup.Backup.Run.{Run}
use sion_backup.Fleet.{Reply}
use sion_backup.Daemon.Attempt.Following
use sion_backup.Daemon.Attempt.{measure_every, Daemon, Notice, Circumstances}

module _ {S V : Type 0} (exec : List Text → S → S × ProcessEnd)
    (measure_restic : Repository → S → S × Option Measurement) (send : V → Notice → V × Reply)
    (c : Circumstances) where
  -- The runner, and the requests to release a bucket, are as they were.
  abbrev pub Same : Daemon S V → Daemon S V → Type 0
  Same d d' = (d'.runner ≡ d.runner) × (d'.released ≡ d.released)

  measured-Same :
      (url : Text) (m : Measurement) (d : Daemon S V) (x : S × Option Measurement)
      → Same d (Following.measured exec measure_restic send c url m d x)
  measured-Same url m d (s, none) = (refl, refl)
  measured-Same url m d (s, some size) = (refl, refl)

  measure_from-Same :
      (repo : Repository) (url : Text) (d : Daemon S V) (r : Result PlanFault Measurement)
      → Same d (Following.measure_from exec measure_restic send c repo url d r)
  measure_from-Same repo url d (err e) = (refl, refl)
  measure_from-Same repo url d (ok m) = elim (Bool-cases (stale m c.ends_at measure_every)) [
    | inl e ↦ rw e (measured-Same url m d (measure_restic repo d.world))
    | inr e ↦ rw e (refl, refl)
  ]

  pub after_snapshot-Same :
      (repo : Repository) (url : Text) (r : Run) (d : Daemon S V)
      → Same d (Following.after_snapshot exec measure_restic send c repo url r d)
  unfolding Following.measure
  after_snapshot-Same repo url r d = elim (Bool-cases (is_empty r.snapshot_id)) [
    | inl e ↦ rw e (refl, refl)
    | inr e ↦ rw e (measure_from-Same repo url d (measurement c.plan_faults url c.ends_at d.store))
  ]
