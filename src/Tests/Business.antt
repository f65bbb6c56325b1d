-- ===== src/Tests/Business.antt =====
-- business/domain/plan/planbus/planbus.go at concrete inputs: a machine that is enrolled, seeded and
-- confirmed.
use sion_backup.Prelude.{◌*◌, ◌≡◌, refl, true, false, none, some, List, [], ◌∷◌, pos}
use sion_backup.Prelude.Text.{codes, trim_space, cut, atoi, text_eq}
use sion_backup.Prelude.Result.{ok}
use sion_backup.Prelude.Time.{day, hour}
use sion_backup.Plan.Schedule.{Schedule, parse_time_of_day}
use sion_backup.Plan.Schedule
use sion_backup.Plan.Record.{Plan, validate}
use sion_backup.Plan.Measurement.{Measurement}
use sion_backup.Plan.Integrity.{Integrity}
use sion_backup.Plan.Machine.{MachineState}
use sion_backup.Plan.Store.{Store, StoreFaults, stored}
use sion_backup.Plan.Business.{seed, measurement, integrity, fresh_measurement}
use sion_backup.Plan.Business.Stored.{
  Call, put_call, confirm_call, run_calls, IsStorable, run_calls-IsStorable,
}
use sion_backup.Plan.Business.Seeding.{seed_once}

abbrev pub works : StoreFaults
works = record {
  get = false;
  put = false;
  seeded = false;
  mark_seeded = false;
  get_measurement = false;
  put_measurement = false;
  get_integrity = false;
  put_integrity = false;
  get_machine_state = false;
  put_machine_state = false;
}

abbrev pub plan : Plan
plan = record {
  node_id = codes "ana";
  repository = codes "s3:b";
  targets = codes "/home" ∷ [];
  excludes = [];
  schedule = record {
    times = codes "13:00" ∷ [];
    jitter_minutes = pos 30;
    min_interval = pos (6 * hour);
  };
  pack_size_mib = pos 0;
  read_concurrency = pos 0;
  use_fs_snapshot = false;
  allow_vss_fallback = false;
  one_file_system = true;
  paused = false;
  skip_on_metered = false;
  skip_larger_than_gb = pos 0;
  style = [];
  confirmed_at = 0;
  updated_at = 0;
}

abbrev measured : Measurement
measured = record {
  repository_url = codes "s3:old";
  since = day;
  measured_at = 2 * day;
  now = pos 100;
  fresh = pos 40;
  snapshots = pos 3;
}

abbrev broken : Integrity
broken = record {
  repository_url = codes "s3:b";
  checked_at = 2 * day;
  subset = codes "64M";
  ok = false;
  detail = codes "pack";
  skipped_reason = [];
}

abbrev machine : MachineState
machine = record {
  asked_at = 0;
  node_id = [];
  owner_name = [];
  owner_email = [];
  bucket = record { url = []; created_at = 0; state = []; adopted = false };
  offer = none;
  card = record { state = []; issued_at = 0 };
  failure = [];
}

abbrev pub empty : Store
empty = record {
  plan = none;
  seeded = false;
  measurement = measured;
  integrity = broken;
  machine_state = machine;
}

abbrev calls : List (StoreFaults × Call)
calls = (works, put_call plan day) ∷ (works, confirm_call (2 * day)) ∷ []

run_calls-IsStorable_example : IsStorable (run_calls calls empty).plan
run_calls-IsStorable_example = run_calls-IsStorable calls empty tt

abbrev pub seeded : Store
seeded = record empty { plan = some (stored (record plan { updated_at = day })); seeded = true }

seeds : seed works plan day empty ≡ (seeded, ok true)
unfolding seed validate Schedule.validate parse_time_of_day cut trim_space atoi
seeds = refl

seed_once_example :
    seed works plan (3 * day) (run_calls calls seeded) ≡ (run_calls calls seeded, ok false)
seed_once_example = seed_once works plan day empty seeded seeds calls works plan (3 * day) refl

abbrev fresh : Measurement
fresh = fresh_measurement (codes "s3:b") day

url_matches : integrity works (codes "s3:b") empty ≡ ok broken
unfolding integrity text_eq
url_matches = refl

url_differs : measurement works (codes "s3:b") day empty ≡ ok fresh
unfolding measurement text_eq
url_differs = refl
