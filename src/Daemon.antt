-- ===== src/Daemon.antt =====
-- cmd/sion-backup/daemon.go: maybeRun, which decides each minute whether to start a scheduled backup.
-- What the network costs is an argument.
pub mod Checking
pub mod Opening
pub mod Updating
pub mod Polling
pub mod Attempt
use sion_backup.Prelude.{
  Bool, true, false, Option, none, some, not, ◌&&◌, if◌then◌else◌, ◌≡◌, ◌↔◌, ap, sym, subst, arith,
}
use sion_backup.Prelude.Result.{Result, ok, err}
use sion_backup.Prelude.Time.{Time, Calendar}
use sion_backup.Plan.Schedule
use sion_backup.Plan.Record.{Plan, confirmed}
use sion_backup.Plan.Business.{PlanFault}
use sion_backup.Backup.Run.{Run}
use sion_backup.Backup.Store.{last}
use sion_backup.Backup.Runner.{Runner}

-- The time that Due is given: the start of the newest row of any kind.
abbrev pub last_start : Option Run → Time
last_start (some r) = r.started_at
last_start none = 0

-- `unread`: the run history could not be read.
abbrev pub scheduled : Calendar → Bool → Runner → Time → Plan → Option Plan
scheduled cal unread s now p =
    if unread
    then none
    else if Schedule.due cal p.schedule p.node_id now (last_start (last s.history))
    then some p
    else none

abbrev pub gated : Calendar → Bool → Bool → Runner → Time → Plan → Option Plan
gated cal metered unread s now p =
    if p.paused
    then none
    else if not (confirmed p)
    then none
    else if s.running
    then none
    else if p.skip_on_metered && metered
    then none
    else scheduled cal unread s now p

abbrev pub gate : Calendar → Bool → Bool → Runner → Time → Result PlanFault Plan → Option Plan
gate cal metered unread s now (err e) = none
gate cal metered unread s now (ok p) = gated cal metered unread s now p

-- The plan of the backup that is started, if one is.
unfoldable pub maybe_run :
    Calendar → Bool → Bool → Runner → Time → Result PlanFault Plan → Option Plan
maybe_run cal metered unread s now plan = gate cal metered unread s now plan

-- What has to hold for a scheduled backup of a plan to start.
abbrev pub MayStart : Calendar → Bool → Bool → Runner → Time → Plan → Type 0
MayStart cal metered unread s now p =
    (p.paused ≡ false)
    × (confirmed p ≡ true)
    × (s.running ≡ false)
    × ((p.skip_on_metered && metered) ≡ false)
    × (unread ≡ false)
    × (Schedule.due cal p.schedule p.node_id now (last_start (last s.history)) ≡ true)

gated_starts :
    (cal : Calendar) (metered unread : Bool) (s : Runner) (now : Time) (q p : Plan)
    → gated cal metered unread s now q ≡ some p
    → (q ≡ p) × MayStart cal metered unread s now q
gated_starts cal metered unread s now q p h = ground arith

gated_lets :
    (cal : Calendar) (metered unread : Bool) (s : Runner) (now : Time) (q : Plan)
    → MayStart cal metered unread s now q
    → gated cal metered unread s now q ≡ some q
gated_lets cal metered unread s now q h = ground arith

-- A scheduled backup starts exactly when the stored plan can be read, is not paused and has been
-- confirmed, no backup is running, the connection is not a metered one that the plan avoids, the run
-- history can be read, and the schedule is due for the start of the newest row; it is one of that plan.
pub maybe_run_iff :
    (cal : Calendar) (metered unread : Bool) (s : Runner) (now : Time)
    (plan : Result PlanFault Plan) (p : Plan)
    → (maybe_run cal metered unread s now plan ≡ some p)
      ↔ (plan ≡ ok p) × MayStart cal metered unread s now p
unfolding maybe_run
maybe_run_iff cal metered unread s now (err e) p = (λ h. cc, λ h. cc)
maybe_run_iff cal metered unread s now (ok q) p = (
  (λ h.
      let (e, m) = gated_starts cal metered unread s now q p h in
      (ap ok e, subst (λ x. MayStart cal metered unread s now x) e m)),
  λ (e, m).
      subst (λ x. gate cal metered unread s now x ≡ some p) (sym e)
        (gated_lets cal metered unread s now p m),
)
