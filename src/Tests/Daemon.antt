-- ===== src/Tests/Daemon.antt =====
-- maybeRun at a concrete input: a confirmed plan and two runs on the first day.
use sion_backup.Prelude.{◌*◌, ◌≡◌, ◌↔◌, false, some}
use sion_backup.Prelude.Result.{Result, ok}
use sion_backup.Plan.Business.{PlanFault}
use sion_backup.Prelude.Time.{day}
use sion_backup.Plan.Record.{Plan}
use sion_backup.Daemon.{maybe_run, MayStart, maybe_run_iff}
use sion_backup.Tests.Plan.{utc}
use sion_backup.Tests.Business.{plan}
use sion_backup.Tests.Reporting.{idle}

abbrev approved : Plan
approved = record plan { confirmed_at = day }

abbrev read_plan : Result PlanFault Plan
read_plan = ok approved

maybe_run_iff_example :
    (maybe_run utc false false idle (9 * day) read_plan ≡ some approved)
    ↔ (read_plan ≡ ok approved) × MayStart utc false false idle (9 * day) approved
maybe_run_iff_example = maybe_run_iff utc false false idle (9 * day) read_plan approved
