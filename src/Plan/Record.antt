-- ===== src/Plan/Record.antt =====
-- business/domain/plan/planbus/planbus.go: Plan, Validate, Runnable and Confirmed.
use sion_backup.Prelude.{Bool, Option, none, some, List, ℤ, pos, not, ltb_ℤ, if◌then◌else◌}
use sion_backup.Prelude.Text.{Text, is_empty}
use sion_backup.Prelude.Time.{Time, is_zero}
use sion_backup.Plan.Schedule.{Schedule, ScheduleError, is_nil}
use sion_backup.Plan.Schedule

pub record Plan : Type 0 where
  pub node_id : Text
  pub repository : Text
  pub targets : List Text
  pub excludes : List Text
  pub schedule : Schedule
  pub pack_size_mib : ℤ
  pub read_concurrency : ℤ
  pub use_fs_snapshot : Bool
  pub allow_vss_fallback : Bool
  pub one_file_system : Bool
  pub paused : Bool
  pub skip_on_metered : Bool
  pub skip_larger_than_gb : ℤ
  pub style : Text
  pub confirmed_at : Time
  pub updated_at : Time

pub data PlanError : Type 0 where
  no_node_id no_repository negative_size_limit no_targets : PlanError
  bad_schedule : ScheduleError → PlanError

abbrev pub of_schedule : Option ScheduleError → Option PlanError
of_schedule none = none
of_schedule (some e) = some (bad_schedule e)

unfoldable pub confirmed : Plan → Bool
confirmed p = not (is_zero p.confirmed_at)

unfoldable pub validate : Plan → Option PlanError
validate p =
    if is_empty p.node_id
    then some no_node_id
    else if is_empty p.repository
    then some no_repository
    else if ltb_ℤ p.skip_larger_than_gb (pos 0)
    then some negative_size_limit
    else of_schedule (Schedule.validate p.schedule)

abbrev pub targets_error : Option PlanError → List Text → Option PlanError
targets_error (some e) targets = some e
targets_error none targets = if is_nil targets then some no_targets else none

unfoldable pub runnable : Plan → Option PlanError
unfolding validate
runnable p = targets_error (validate p) p.targets
