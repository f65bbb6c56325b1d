-- ===== src/Plan/Business.antt =====
-- business/domain/plan/planbus/planbus.go: Business, its operations on the store.
pub mod Stored
pub mod Seeding
pub mod Confirming
pub mod Putting
pub mod Facts
use sion_backup.Prelude.{
  Bool, true, false, Option, none, some, ◌⊎◌, inl, inr, if◌then◌else◌, [], pos,
}
use sion_backup.Prelude.Text.{Text, text_eq}
use sion_backup.Prelude.Result.{Result, ok, err}
use sion_backup.Prelude.Time.{Time, is_zero}
use sion_backup.Plan.Record.{Plan, PlanError, validate, runnable}
use sion_backup.Plan.Measurement.{Measurement}
use sion_backup.Plan.Integrity.{Integrity}
use sion_backup.Plan.Machine.{MachineState}
use sion_backup.Plan.Store.{Store, StoreFaults, stored}

pub data PlanFault : Type 0 where
  no_plan store_failed : PlanFault
  invalid : PlanError → PlanFault

abbrev pub or_no_plan : Option Plan → Result PlanFault Plan
or_no_plan none = err no_plan
or_no_plan (some p) = ok p

unfoldable pub get : StoreFaults → Store → Result PlanFault Plan
get f s = if f.get then err store_failed else or_no_plan s.plan

-- store.Put
abbrev pub put_plan : StoreFaults → Plan → Store → Store × Option PlanFault
put_plan f p s =
    if f.put then (s, some store_failed) else (record s { plan = some (stored p) }, none)

abbrev pub put_checked : Option PlanError → StoreFaults → Plan → Store → Store × Option PlanFault
put_checked (some e) f p s = (s, some (invalid e))
put_checked none f p s = put_plan f p s

unfoldable pub put : StoreFaults → Plan → Time → Store → Store × Option PlanFault
put f p now s = put_checked (validate p) f (record p { updated_at = now }) s

abbrev pub confirm_plan :
    Result PlanFault Plan → StoreFaults → Time → Store → Store × Option PlanFault
confirm_plan (err e) f now s = (s, some e)
confirm_plan (ok p) f now s =
    put_checked (runnable p) f (record p { confirmed_at = now; updated_at = now }) s

unfoldable pub confirm : StoreFaults → Time → Store → Store × Option PlanFault
confirm f now s = confirm_plan (get f s) f now s

abbrev pub mark_seeded : StoreFaults → Store × Option PlanFault → Store × Result PlanFault Bool
mark_seeded f (s, some e) = (s, err e)
mark_seeded f (s, none) =
    if f.mark_seeded then (s, err store_failed) else (record s { seeded = true }, ok true)

abbrev pub seed_checked :
    Option PlanError → StoreFaults → Plan → Store → Store × Result PlanFault Bool
seed_checked (some e) f p s = (s, err (invalid e))
seed_checked none f p s = mark_seeded f (put_plan f p s)

unfoldable pub seed : StoreFaults → Plan → Time → Store → Store × Result PlanFault Bool
seed f p now s =
    if f.seeded
    then (s, err store_failed)
    else if s.seeded
    then (s, ok false)
    else seed_checked (validate p) f (record p { updated_at = now }) s

abbrev pub fresh_measurement : Text → Time → Measurement
fresh_measurement url now = record {
  repository_url = url;
  since = now;
  measured_at = 0;
  now = pos 0;
  fresh = pos 0;
  snapshots = pos 0;
}

unfoldable pub measurement : StoreFaults → Text → Time → Store → Result PlanFault Measurement
measurement f url now s =
    if f.get_measurement
    then err store_failed
    else if text_eq s.measurement.repository_url url
    then ok s.measurement
    else ok (fresh_measurement url now)

-- planbus.Size, as a measurement whose other fields are not read.
unfoldable pub record_measurement :
    StoreFaults → Text → Time → Time → Measurement → Store → Store × Option PlanFault
record_measurement f url now since size s = if f.put_measurement then (s, some store_failed) else (
  record s {
    measurement = record size {
      repository_url = url;
      since = if is_zero since then now else since;
      measured_at = now;
    };
  },
  none,
)

abbrev pub no_integrity : Integrity
no_integrity = record {
  repository_url = [];
  checked_at = 0;
  subset = [];
  ok = false;
  detail = [];
  skipped_reason = [];
}

unfoldable pub integrity : StoreFaults → Text → Store → Result PlanFault Integrity
integrity f url s =
    if f.get_integrity
    then err store_failed
    else if text_eq s.integrity.repository_url url
    then ok s.integrity
    else ok no_integrity

unfoldable pub record_integrity : StoreFaults → Integrity → Store → Store × Option PlanFault
record_integrity f i s =
    if f.put_integrity then (s, some store_failed) else (record s { integrity = i }, none)

unfoldable pub record_machine_state : StoreFaults → MachineState → Store → Store × Option PlanFault
record_machine_state f m s =
    if f.put_machine_state then (s, some store_failed) else (record s { machine_state = m }, none)

unfoldable pub record_state_failure : StoreFaults → Text → Store → Store × Option PlanFault
unfolding record_machine_state
record_state_failure f reason s =
    if f.get_machine_state
    then (s, some store_failed)
    else record_machine_state f (record s.machine_state { failure = reason }) s
