-- ===== src/StatusPage/Verdict.antt =====
-- statusapp.go, verdictFor: the line at the top of the status page; its sentences are left out. funcs.go,
-- pill: the colour of an outcome.
use sion_backup.Prelude.{Bool, Option, none, some, not, ◌*◌, if◌then◌else◌, ltb_ℤ, pos}
use sion_backup.Prelude.Time.{Time, sub_time, hour}
use sion_backup.Plan.Record.{Plan, confirmed}
use sion_backup.Backup.Run.{
  Run, Outcome, success, degraded, incomplete, unverified, failed, cancelled,
}

pub data Level : Type 0 where
  good warn bad : Level

pub data Headline : Type 0 where
  backing_up waiting_for_you paused not_yet_run backed_up stopped gap some_missed not_read_back :
      Headline
  last_was_stopped last_failed : Headline

pub record Verdict : Type 0 where
  pub level : Level
  pub headline : Headline

abbrev pub says : Level → Headline → Verdict
says l h = record { level = l; headline = h }

abbrev pub stale : Run → Time → Bool
stale r now = ltb_ℤ (pos (48 * hour)) (sub_time now r.started_at)

abbrev pub of_outcome : Outcome → Bool → Verdict
of_outcome success old = if old then says bad stopped else says good backed_up
of_outcome degraded old = says warn gap
of_outcome incomplete old = says warn some_missed
of_outcome unverified old = says bad not_read_back
of_outcome cancelled old = if old then says bad stopped else says warn last_was_stopped
of_outcome failed old = says bad last_failed

abbrev pub of_last : Option Run → Time → Verdict
of_last none now = says warn not_yet_run
of_last (some r) now = of_outcome r.outcome (stale r now)

unfoldable pub verdict_for : Plan → Option Run → Bool → Time → Verdict
verdict_for p last running now =
    if running
    then says good backing_up
    else if not (confirmed p)
    then says warn waiting_for_you
    else if p.paused
    then says warn paused
    else of_last last now

pub data Pill : Type 0 where
  good_pill warn_pill quiet_pill bad_pill : Pill

unfoldable pub pill : Outcome → Pill
pill success = good_pill
pill degraded = warn_pill
pill incomplete = warn_pill
pill cancelled = quiet_pill
pill _ = bad_pill
