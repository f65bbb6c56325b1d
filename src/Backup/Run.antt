-- ===== src/Backup/Run.antt =====
-- business/domain/backup/backupbus/backupbus.go: Run and its outcomes.
use sion_backup.Prelude.{ℕ, Bool, true, false, Option, List}
use sion_backup.Prelude.Text.{Text}
use sion_backup.Prelude.Time.{Time, is_zero}
use sion_backup.Restic.{Failure}

pub data Outcome : Type 0 where
  success degraded incomplete unverified failed cancelled : Outcome

abbrev pub good : Outcome → Bool
good success = true
good _ = false

-- Why the restored verification file was not accepted.
pub data Unread : Type 0 where
  not_restored different : Unread

-- The message of a run: the sentence, with what is put into it.
pub data Message : Type 0 where
  nothing_said lock_cleared without_snapshot : Message
  scratch_unready nonce_failed lock_stuck could_not_start : Text → Message
  stopped stopped_and_locked : Text → Message
  files_unreadable : ℕ → Message
  backup_failed : Failure → Message
  not_read_back : Unread → Message
  files_added : ℕ → ℕ → Message

pub record Run : Type 0 where
  pub id : ℕ
  pub node_id : Text
  pub run_uuid : Text
  pub repository : Text
  pub seeding : Bool
  pub started_at : Time
  pub finished_at : Time
  pub outcome : Outcome
  pub message : Message
  pub snapshot_id : Text
  pub files_new : ℕ
  pub files_changed : ℕ
  pub total_files_processed : ℕ
  pub total_bytes_processed : ℕ
  pub data_added : ℕ
  pub unreadable_files : List Text
  pub verified : Bool
  pub vss_fell_back : Bool
  pub reported_at : Option Time

-- Reported: the fleet's word for a cancelled run is failed.
unfoldable pub reported : Outcome → Outcome
reported cancelled = failed
reported o = o

unfoldable pub unfinished : Run → Bool
unfinished r = is_zero r.finished_at
