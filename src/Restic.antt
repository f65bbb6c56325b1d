-- ===== src/Restic.antt =====
-- foundation/restic: what the program makes of restic's exit codes (restic.go), and the backup with
-- its fallback from VSS (backup.go). What the restic process does is an argument.
pub mod Command
pub mod Messages
pub mod Ops
pub mod Managed
use sion_backup.Prelude.{
  ℕ, Bool, true, false, Option, none, some, List, [], ◌∷◌, map, ◌==◌, ◌&&◌, not, if◌then◌else◌,
}
use sion_backup.Prelude.Text.{Text, codes, contains, to_lower}

-- The exit statuses that the program tells apart.
abbrev pub exit_failed : ℕ
exit_failed = 1

abbrev pub exit_incomplete : ℕ
exit_incomplete = 3

abbrev pub exit_no_repository : ℕ
exit_no_repository = 10

abbrev pub exit_locked : ℕ
exit_locked = 11

abbrev pub exit_wrong_password : ℕ
exit_wrong_password = 12

unfoldable pub contains_any : Text → List Text → Bool
contains_any s [] = false
contains_any s (n ∷ ns) = if contains s n then true else contains_any s ns

unfoldable pub says_absent : Text → Bool
unfolding contains_any
says_absent msg =
    contains_any msg (
      codes "unable to open config file"
      ∷ codes "is there a repository at the following location"
      ∷ codes "repository does not exist"
      ∷ codes "no such file or directory"
      ∷ [])
    && contains_any msg (codes "config" ∷ codes "repository" ∷ [])

unfoldable pub says_locked : Text → Bool
unfolding contains_any
says_locked msg = contains_any msg (
    codes "unable to create lock"
    ∷ codes "repository is already locked"
    ∷ codes "locked exclusively"
    ∷ [])

unfoldable pub says_wrong_password : Text → Bool
unfolding contains_any
says_wrong_password msg = contains_any msg (codes "wrong password" ∷ codes "invalid password" ∷ [])

unfoldable pub classify : ℕ → Text → ℕ
classify code stderr =
    if not (code == exit_failed)
    then code
    else if says_absent (map to_lower stderr)
    then exit_no_repository
    else if says_locked (map to_lower stderr)
    then exit_locked
    else if says_wrong_password (map to_lower stderr)
    then exit_wrong_password
    else code

-- restic.Error, or an error of another kind with its text.
pub data Failure : Type 0 where
  exited : ℕ → Text → Failure
  other : Text → Failure

unfoldable pub incomplete : Failure → Bool
incomplete (exited code stderr) = code == exit_incomplete
incomplete (other e) = false

unfoldable pub retryable : Failure → Bool
retryable (exited code stderr) = code == exit_locked
retryable (other e) = false

pub record Summary : Type 0 where
  pub snapshot_id : Text
  pub files_new : ℕ
  pub files_changed : ℕ
  pub total_files_processed : ℕ
  pub total_bytes_processed : ℕ
  pub data_added : ℕ
  pub error_count : ℕ
  pub errors : List (Text × Text)
  pub vss_fell_back : Bool

-- How the process of one backup ended: exit 0, another exit with its standard error, or a failure to
-- run it, to read it or to validate its repository.
pub data ProcessEnd : Type 0 where
  clean : ProcessEnd
  exit : ℕ → Text → ProcessEnd
  broken : Text → ProcessEnd

abbrev pub failure_of : ProcessEnd → Option Failure
failure_of clean = none
failure_of (exit code stderr) = some (exited (classify code stderr) stderr)
failure_of (broken e) = some (other e)

-- The process as a function of whether it is asked for a filesystem snapshot.
abbrev pub Process : Type 0
Process = Bool → Summary × ProcessEnd

-- backupOnce, from the end of its process on.
unfoldable pub backup_once : Process → Bool → Summary × Option Failure
backup_once run use_fs_snapshot =
    let (summary, end) = run use_fs_snapshot in (summary, failure_of end)

unfoldable pub says_vss : Text → Bool
unfolding contains_any
says_vss msg = contains_any msg (
    codes "failed to create snapshot"
    ∷ codes "vss"
    ∷ codes "shadow copy"
    ∷ codes "access is denied"
    ∷ [])

unfoldable pub vss_refused : Bool → Failure → Bool
vss_refused windows (exited code stderr) = windows && says_vss (map to_lower stderr)
vss_refused windows (other e) = false

pub record Options : Type 0 where
  pub targets : List Text
  pub use_fs_snapshot : Bool
  pub allow_vss_fallback : Bool

abbrev pub no_summary : Summary
no_summary = record {
  snapshot_id = [];
  files_new = 0;
  files_changed = 0;
  total_files_processed = 0;
  total_bytes_processed = 0;
  data_added = 0;
  error_count = 0;
  errors = [];
  vss_fell_back = false;
}

abbrev pub fell_back : Summary × Option Failure → Summary × Option Failure
fell_back (s, e) = (record s { vss_fell_back = true }, e)

abbrev pub or_fall_back :
    Bool → Process → Options → Summary × Option Failure → Summary × Option Failure
or_fall_back windows run o (s, none) = (s, none)
or_fall_back windows run o (s, some e) =
    if o.use_fs_snapshot && o.allow_vss_fallback && vss_refused windows e
    then fell_back (backup_once run false)
    else (s, some e)

abbrev pub has_none : List Text → Bool
has_none [] = true
has_none (_ ∷ _) = false

unfoldable pub backup : Bool → Process → Options → Summary × Option Failure
unfolding backup_once
backup windows run o =
    if has_none o.targets
    then (no_summary, some (other (codes "no targets")))
    else or_fall_back windows run o (backup_once run o.use_fs_snapshot)
