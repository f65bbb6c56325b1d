-- ===== src/Tests/Backup.antt =====
-- business/domain/backup/backupbus/backupbus.go at concrete inputs: a run whose files come back.
use sion_backup.Prelude.{refl, false, none, some, [], ◌∷◌}
use sion_backup.Prelude.Text.{codes}
use sion_backup.Restic.{Summary, clean, exit, Options, backup, no_summary}
use sion_backup.Backup.Run.{Run, failed, nothing_said}
use sion_backup.Backup.Execute.{World, execute}
use sion_backup.Backup.Execute.Verdict.{Verdict, execute-Verdict, all_targets}

abbrev summary : Summary
summary = record no_summary { snapshot_id = codes "1f"; total_files_processed = 2; data_added = 9 }

abbrev pub quiet : World
quiet = record {
  windows = false;
  clear_error = none;
  nonce_error = none;
  nonce = codes "ab";
  process = λ _. (summary, clean);
  stop = none;
  unlock_error = none;
  restored = some (codes "ab");
}

abbrev pub home : Options
home = record { targets = codes "/home" ∷ []; use_fs_snapshot = false; allow_vss_fallback = false }

abbrev pub begun : Run
begun = record {
  id = 1;
  node_id = codes "ana";
  run_uuid = codes "u";
  repository = codes "s3:b";
  seeding = false;
  started_at = 5;
  finished_at = 0;
  outcome = failed;
  message = nothing_said;
  snapshot_id = [];
  files_new = 0;
  files_changed = 0;
  total_files_processed = 0;
  total_bytes_processed = 0;
  data_added = 0;
  unreadable_files = [];
  verified = false;
  vss_fell_back = false;
  reported_at = none;
}

abbrev some_unread : World
some_unread = record quiet { process = λ _. (summary, exit 3 (codes "x")) }

execute-Verdict_example :
    Verdict some_unread
      (backup false some_unread.process (all_targets home (codes "/v")))
      (execute some_unread home (codes "/v") begun)
      (execute some_unread home (codes "/v") begun).outcome
execute-Verdict_example = execute-Verdict some_unread home (codes "/v") begun refl refl
