-- ===== src/Backup/Runner.antt =====
-- business/domain/backup/backupbus/backupbus.go: Runner.Run, RecordFailedStart and Seeding.
pub mod Recorded
use sion_backup.Prelude.{ℕ, Bool, true, false, Option, none, some, [], not, if◌then◌else◌}
use sion_backup.Prelude.Text.{Text}
use sion_backup.Prelude.Time.{Time}
use sion_backup.Restic.{Options}
use sion_backup.Backup.Run.{Run, failed, Message, nothing_said}
use sion_backup.Backup.Execute.{World, execute}
use sion_backup.Backup.Store.{History, create, finish, seen_repository}

-- The single-flight guard and the store.
pub record Runner : Type 0 where
  pub running : Bool
  pub history : History

-- The store's calls that fail.
pub record Faults : Type 0 where
  pub create : Bool
  pub finish : Bool

pub record Request : Type 0 where
  pub node_id : Text
  pub run_uuid : Text
  pub seeding : Bool
  pub repository_url : Text
  pub options : Options

-- The run that a request starts; its id is the store's to give.
abbrev pub started_run : Request → Time → Run
started_run q at = record {
  id = 0;
  node_id = q.node_id;
  run_uuid = q.run_uuid;
  repository = q.repository_url;
  seeding = q.seeding;
  started_at = at;
  finished_at = 0;
  outcome = failed;
  message = nothing_said;
  snapshot_id = [];
  files_new = 0;
  files_changed = 0;
  total_files_processed = 0;
  total_bytes_processed = 0;
  data_added = 0;
  unreadable_files = [];
  verified = false;
  vss_fell_back = false;
  reported_at = none;
}

pub data RunEnd : Type 0 where
  already_running not_opened : RunEnd
  not_closed closed : Run → RunEnd

abbrev pub run_finished : Run → History × Bool → History × RunEnd
run_finished r (h, true) = (h, closed r)
run_finished r (h, false) = (h, not_closed r)

-- From the row's id on: execute, and the write of the outcome at `finished`.
abbrev pub run_opened :
    Faults → World → Text → Request → Time → Time → History × Option ℕ → History × RunEnd
run_opened f w dir q started finished (h, none) = (h, not_opened)
run_opened f w dir q started finished (h, some i) =
    let r = record (execute w q.options dir (record (started_run q started) { id = i })) {
      finished_at = finished;
    } in
    run_finished r (finish f.finish r h)

-- The guard is down again when Run returns.
abbrev pub released : History × RunEnd → Runner × RunEnd
released (h, e) = (record { running = false; history = h }, e)

unfoldable pub run : Faults → World → Text → Request → Time → Time → Runner → Runner × RunEnd
run f w dir q started finished s =
    if s.running
    then (s, already_running)
    else released
        (run_opened f w dir q started finished (create f.create (started_run q started) s.history))

abbrev pub failed_start : Faults → Request → Message → Time → History × Option ℕ → History × Bool
failed_start f q reason at (h, none) = (h, false)
failed_start f q reason at (h, some i) =
    finish f.finish (record (started_run q at) { id = i; finished_at = at; message = reason }) h

-- Create writes the reason too.
unfoldable pub record_failed_start : Faults → Request → Message → Time → History → History × Bool
record_failed_start f q reason at h =
    failed_start f q reason at (create f.create (record (started_run q at) { message = reason }) h)

unfoldable pub seeding : Text → History → Bool
seeding url h = not (seen_repository url h)
