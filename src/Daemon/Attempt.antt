-- ===== src/Daemon/Attempt.antt =====
-- cmd/sion-backup/daemon.go: what an attempt at a backup (runBackup) reads and changes, and startRun;
-- with startEvent and backupOptions (events.go). Following holds what comes after a run, Starting the attempt.
pub mod Following
pub mod Starting
pub mod Rows
pub mod Steps
pub mod Recorded
pub mod Released
use sion_backup.Prelude.{
  ℕ, Bool, true, false, Option, none, some, List, [], ◌∷◌, ◌++◌, not, ◌&&◌, if◌then◌else◌, ℤ, pos,
  ◌*◌,
}
use sion_backup.Prelude.Text.{Text, codes, text_eq, is_empty}
use sion_backup.Prelude.Result.{Result, ok, err}
use sion_backup.Prelude.Time.{Time, Duration, day}
use sion_backup.Restic.{ProcessEnd, Failure, Options}
use sion_backup.Restic.Command.{Repository}
use sion_backup.Restic.Ops.{EnsureError}
use sion_backup.Plan.Record.{Plan, PlanError, runnable}
use sion_backup.Plan.Measurement.{Measurement, stale}
use sion_backup.Plan.Store.{Store, StoreFaults}
use sion_backup.Plan.Business.{PlanFault, get, put, measurement, record_measurement}
use sion_backup.Credentials.{Set, CredentialError, repository, for_run}
use sion_backup.Backup.Run.{Run, could_not_start}
use sion_backup.Backup.Execute.{World}
use sion_backup.Backup.Store.{History, mark_reported}
use sion_backup.Backup.Runner.{
  Runner, Faults, Request, RunEnd, already_running, not_opened, not_closed, closed, run,
  record_failed_start, seeding,
}
use sion_backup.Fleet.{Event, event_for, Reply, landed, rejected, unreachable}
use sion_backup.Daemon.Opening.{open_repository}
use sion_backup.Daemon.Checking.{Machine, check_repository}
use sion_backup.Daemon.Updating.{Updates, Install, self_update}

-- startEvent, without what is the same for every run of a machine.
pub record StartEvent : Type 0 where
  pub node_id : Text
  pub run_uuid : Text
  pub repository_url : Text
  pub seeding : Bool
  pub started_at : Time

abbrev pub start_event : Plan → Text → Bool → Time → StartEvent
start_event p uuid seeding now = record {
  node_id = p.node_id;
  run_uuid = uuid;
  repository_url = p.repository;
  seeding = seeding;
  started_at = now;
}

-- What the fleet is told.
pub data Notice : Type 0 where
  started : StartEvent → Notice
  finished : Event → Notice

pub data StartError : Type 0 where
  not_runnable : PlanError → StartError
  no_restic : Text → StartError
  no_credentials : CredentialError → StartError
  no_repository : EnsureError → StartError
  running_already row_not_written : StartError
  row_not_closed : Run → StartError

unfoldable pub is_running_already : StartError → Bool
is_running_already running_already = true
is_running_already e = false

-- What runBackup returns.
pub record Attempt : Type 0 where
  pub request : Request
  pub started : Bool
  pub error : Option StartError

-- The world that restic works on, the two stores, the fleet's server, the binary, the reports of
-- damage, and the repositories named in requests to release the bucket before.
pub record Daemon (S V : Type 0) : Type 0 where
  pub world : S
  pub store : Store
  pub runner : Runner
  pub server : V
  pub install : Install
  pub reports : List Failure
  pub released : List Text

-- How the calls of one attempt end, and its times. `unseen`: SeenRepository fails; `restic_error`:
-- ensureRestic fails; `answer`: what Fetch returns; `run_uuid`: empty where none could be made.
pub record Circumstances : Type 0 where
  pub plan_faults : StoreFaults
  pub run_faults : Faults
  pub unseen : Bool
  pub mark_fails : Bool
  pub restic_error : Option Text
  pub enrolled : Bool
  pub answer : Option Set
  pub run_uuid : Text
  pub verify_dir : Text
  pub is_metered : Bool
  pub updates : Updates
  pub begins_at : Time
  pub ends_at : Time

-- What Backup decides on, of backupOptions.
abbrev pub run_options : Plan → Options
run_options p = record {
  targets = p.targets;
  use_fs_snapshot = p.use_fs_snapshot;
  allow_vss_fallback = p.allow_vss_fallback;
}

abbrev pub only_node : Plan → Request
only_node p = record {
  node_id = p.node_id;
  run_uuid = [];
  seeding = false;
  repository_url = [];
  options = record { targets = []; use_fs_snapshot = false; allow_vss_fallback = false };
}

abbrev pub state_cutting_over : Text
state_cutting_over = codes "cutting-over"

abbrev pub measure_every : Duration
measure_every = pos (7 * day)

-- The plan with the repository that the server names.
abbrev pub moved : Set → Plan → Plan
moved set p = record p { repository = set.repository_url }

-- A failure to record it is only logged.
abbrev pub moved_store : Circumstances → Set → Plan → Store → Store
moved_store c set p s =
    if text_eq set.repository_url p.repository
    then s
    else (put c.plan_faults (moved set p) c.begins_at s).0

abbrev pub request : Circumstances → Plan → History → Request
request c p h = record {
  node_id = p.node_id;
  run_uuid = c.run_uuid;
  seeding = if c.unseen then false else seeding p.repository h;
  repository_url = p.repository;
  options = run_options p;
}

abbrev pub may_release : Set → Run → Bool
may_release set r =
    not (is_empty r.snapshot_id) && r.verified && text_eq set.repository_state state_cutting_over

abbrev pub not_started : Request → StartError → Attempt
not_started q e = record { request = q; started = false; error = some e }

-- `exec`: the restic binary; `during`: what happens while a run executes; `measure_restic`: what
-- restic's Measure makes of the world, with the size it returns; `send`: the fleet's server.
-- startRun: the plan of the backup that a request starts.
pub data Refusal : Type 0 where
  no_plan : PlanFault → Refusal
  busy : Refusal

abbrev pub unless_busy : Runner → Result PlanFault Plan → Result Refusal Plan
unless_busy b (err e) = err (no_plan e)
unless_busy b (ok p) = if b.running then err busy else ok p

unfoldable pub start_run : StoreFaults → Store → Runner → Result Refusal Plan
start_run f s b = unless_busy b (get f s)
