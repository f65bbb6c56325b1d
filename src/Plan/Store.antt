-- ===== src/Plan/Store.antt =====
-- business/domain/plan/stores/plandb/plandb.go: the plan row and the plan_meta rows, as the values
-- that reading them gives back.
use sion_backup.Prelude.{ℕ, zero, suc, ◌*◌, ◌/◌, Bool, Option, ℤ, pos, negsuc}
use sion_backup.Prelude.Time.{Time, Duration, second}
use sion_backup.Plan.Record.{Plan}
use sion_backup.Plan.Measurement.{Measurement}
use sion_backup.Plan.Integrity.{Integrity}
use sion_backup.Plan.Machine.{MachineState}

pub record Store : Type 0 where
  pub plan : Option Plan
  pub seeded : Bool
  pub measurement : Measurement
  pub integrity : Integrity
  pub machine_state : MachineState

-- The calls of the store that fail, whatever is asked of it.
pub record StoreFaults : Type 0 where
  pub get : Bool
  pub put : Bool
  pub seeded : Bool
  pub mark_seeded : Bool
  pub get_measurement : Bool
  pub put_measurement : Bool
  pub get_integrity : Bool
  pub put_integrity : Bool
  pub get_machine_state : Bool
  pub put_machine_state : Bool

-- A time as RFC3339 keeps it: whole seconds.
abbrev pub rfc3339 : Time → Time
rfc3339 t = t / second * second

abbrev pub minus : ℕ → ℤ
minus zero = pos 0
minus (suc n) = negsuc n

-- min_interval_secs: the interval in whole seconds, rounded towards zero.
abbrev pub whole_seconds : Duration → Duration
whole_seconds (pos n) = pos (n / second * second)
whole_seconds (negsuc n) = minus (suc n / second * second)

-- What Get returns of a plan that Put wrote.
unfoldable pub stored : Plan → Plan
stored p = record p {
  schedule = record p.schedule { min_interval = whole_seconds p.schedule.min_interval };
  confirmed_at = rfc3339 p.confirmed_at;
  updated_at = rfc3339 p.updated_at;
}
