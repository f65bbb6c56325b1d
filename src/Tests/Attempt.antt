-- ===== src/Tests/Attempt.antt =====
-- cmd/sion-backup/daemon.go at concrete inputs: the first backup after a move to an empty bucket, and
-- a backup of a machine without a usable restic.
use sion_backup.Prelude.{◌*◌, refl, true, false, Option, none, some, Bool, [], arith}
use sion_backup.Prelude.Text.{Text, codes}
use sion_backup.Prelude.Time.{day}
use sion_backup.Restic.Command.{Repository}
use sion_backup.Plan.Measurement.{Measurement}
use sion_backup.Credentials.{Set}
use sion_backup.Backup.Execute.{World}
use sion_backup.Backup.Runner.{Request}
use sion_backup.Fleet.{Reply, landed}
use sion_backup.SelfUpdate.Disk.{no_faults}
use sion_backup.SelfUpdate.Apply.{no_source, not_fetched}
use sion_backup.Daemon.Attempt.{Daemon, Notice, Circumstances, StartError, state_cutting_over}
use sion_backup.Daemon.Attempt.Starting.{backup, run_backup}
use sion_backup.Daemon.Attempt.Rows.{AttemptLeaves}
use sion_backup.Daemon.Attempt.Recorded.{backup-AttemptLeaves}
use sion_backup.Daemon.Attempt.Released.{ReleasedWell, IsEarned, run_backup-ReleasedWell}
use sion_backup.Tests.Backup.{quiet}
use sion_backup.Tests.Business.{plan, seeded}
use sion_backup.Tests.Business
use sion_backup.Tests.Reporting.{idle, works}
use sion_backup.Tests.Repository.{emptied}

abbrev moved_set : Set
moved_set = record {
  repository_url = codes "s3:new";
  version = 2;
  credentials = record {
    access_key_id = codes "k";
    secret_access_key = codes "s";
    restic_password = codes "p";
  };
  repository_state = state_cutting_over;
  expect_empty = true;
  restore = record { access_key_id = []; secret_access_key = [] };
}

abbrev fine : Circumstances
fine = record {
  plan_faults = Business.works;
  run_faults = works;
  unseen = false;
  mark_fails = false;
  restic_error = none;
  enrolled = true;
  answer = some moved_set;
  run_uuid = codes "u7";
  verify_dir = codes "/v";
  is_metered = true;
  updates = record {
    on = false;
    current = codes "1.0.0";
    faults = no_faults;
    answer = no_source;
    fetch = not_fetched;
  };
  begins_at = 60 * day;
  ends_at = 61 * day;
}

abbrev without_restic : Circumstances
without_restic = record fine { restic_error = some (codes "disk full") }

abbrev daemon : Daemon Bool Bool
daemon = record {
  world = false;
  store = seeded;
  runner = idle;
  server = true;
  install = record {
    disk = record {
      exe_file = none;
      old_file = none;
      staged_file = none;
      back_file = none;
      probation_file = none;
      refused_file = none;
    };
    last_check = 0;
    applied = false;
    failures = [];
  };
  reports = [];
  released = [];
}

abbrev calm : Request → Bool → Bool × World
calm q s = (s, quiet)

abbrev unmeasured : Repository → Bool → Bool × Option Measurement
unmeasured r s = (s, none)

abbrev hears : Bool → Notice → Bool × Reply
hears v n = (v, landed)

abbrev sentence : StartError → Text
sentence e = codes "no"

backup-AttemptLeaves_example :
    AttemptLeaves sentence idle
      (backup emptied calm unmeasured hears without_restic sentence plan daemon).1
      (backup emptied calm unmeasured hears without_restic sentence plan daemon).0.runner
backup-AttemptLeaves_example =
    backup-AttemptLeaves emptied calm unmeasured hears without_restic sentence plan daemon refl
      (omega arith, (omega arith, tt))

run_backup-ReleasedWell_example :
    ReleasedWell
      (IsEarned emptied calm unmeasured hears fine plan daemon)
      []
      (run_backup emptied calm unmeasured hears fine plan daemon).0.released
run_backup-ReleasedWell_example =
    run_backup-ReleasedWell emptied calm unmeasured hears fine plan daemon
      (omega arith, (omega arith, tt))
