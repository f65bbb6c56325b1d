-- ===== src/Tests/Repository.antt =====
-- foundation/restic and the daemon's use of it at concrete inputs: a bucket that is empty at first, a
-- check that is refused by a lock and then fails.
use sion_backup.Prelude.{
  ℕ, zero, suc, ◌*◌, ◌≡◌, refl, arith, Bool, true, false, none, List, [], ◌∷◌, pos, if◌then◌else◌,
  length, min,
}
use sion_backup.Prelude.Text.{Text, codes, itoa, digits_onto}
use sion_backup.Prelude.Time.{day}
use sion_backup.Prelude.Result.{ok}
use sion_backup.Restic.{ProcessEnd, clean, exit, Summary, no_summary}
use sion_backup.Restic.Command.{Repository, BackupOptions, backup_args}
use sion_backup.Restic.Messages.{
  Line, error_line, summary_line, unreadable, status, parse_backup, parse_from, both_streams,
  max_errors_kept,
}
use sion_backup.Restic.Messages.Counts.{both_streams-counts}
use sion_backup.Restic.Ops.{exists}
use sion_backup.Restic.Ops.Creating.{HasInit, logged, Opens}
use sion_backup.Daemon.Opening.{open_repository, open_repository-creates}
use sion_backup.Plan.Business.{integrity}
use sion_backup.Daemon.Checking.{Machine, check_repository}
use sion_backup.Daemon.Checking.Damage.{Leaves, check_repository-Leaves}
use sion_backup.Tests.Business.{works, seeded}

abbrev pub bucket : Repository
bucket = record {
  url = codes "s3:b";
  password = codes "p";
  access_key_id = codes "k";
  secret_access_key = codes "s";
  pack_size_mib = pos 32;
  read_concurrency = pos 0;
}

abbrev inherited_env : List Text
inherited_env = codes "PATH=/bin" ∷ codes "RESTIC_REPOSITORY=s3:other" ∷ codes "AWS_PROFILE=x" ∷ []

ten : itoa (pos 120) ≡ codes "120"
unfolding itoa digits_onto
ten = refl

abbrev one_file : BackupOptions
one_file = record {
  targets = codes "-Archive" ∷ [];
  exclude_file = [];
  excludes = codes "*.tmp" ∷ [];
  tags = codes "sion-backup" ∷ [];
  host = codes "ana";
  use_fs_snapshot = true;
  one_file_system = true;
  exclude_larger_than = pos 0;
}

windows_args :
    backup_args true one_file
    ≡ codes "backup"
      ∷ codes "--json"
      ∷ codes "--use-fs-snapshot"
      ∷ codes "--host"
      ∷ codes "ana"
      ∷ codes "--tag"
      ∷ codes "sion-backup"
      ∷ codes "--exclude"
      ∷ codes "*.tmp"
      ∷ codes "--"
      ∷ codes "-Archive"
      ∷ []
unfolding backup_args
windows_args = refl

abbrev written : Summary
written = record no_summary { snapshot_id = codes "1f" }

abbrev out_lines : List Line
out_lines = status ∷ unreadable ∷ summary_line written ∷ []

abbrev err_lines : List Line
err_lines =
    error_line (codes "/a") (codes "denied")
    ∷ unreadable
    ∷ error_line (codes "/b") (codes "denied")
    ∷ []

abbrev two_errors : Summary
two_errors = record no_summary {
  error_count = 2;
  errors = (codes "/a", codes "denied") ∷ (codes "/b", codes "denied") ∷ [];
}

out_read : parse_backup out_lines false ≡ (written, true)
unfolding parse_backup parse_from
out_read = refl

err_read : parse_backup err_lines false ≡ (two_errors, true)
unfolding parse_backup parse_from
err_read = refl

both_streams-counts_example :
    let s = (both_streams out_lines false err_lines false).0 in
    (s.error_count ≡ 2) × (s.snapshot_id ≡ codes "1f") × (length s.errors ≡ min max_errors_kept 2)
both_streams-counts_example =
    both_streams-counts out_lines err_lines written two_errors out_read err_read

-- Whether the bucket holds a repository.
abbrev pub emptied : List Text → Bool → Bool × ProcessEnd
emptied (a ∷ b ∷ []) present = (present, if present then clean else exit 10 (codes "no repository"))
emptied _ present = (true, clean)

open_repository-creates_example :
    (HasInit (open_repository (logged emptied) true bucket ([], false)).0.0
      → (true ≡ true) × ((exists emptied bucket false).1 ≡ ok false))
    × (true ≡ true → (open_repository emptied true bucket false).1 ≡ none → Opens emptied bucket)
open_repository-creates_example = open_repository-creates emptied true bucket false

-- Locked the first time, damaged after the lock is cleared.
abbrev locked_once : List Text → ℕ → ℕ × ProcessEnd
locked_once args zero = (1, exit 11 (codes "locked"))
locked_once args (suc zero) = (2, clean)
locked_once args n = (n, exit 1 (codes "pack"))

abbrev machine : Machine ℕ
machine = record { world = 0; store = seeded; reports = [] }

check_repository-Leaves_example :
    Leaves locked_once bucket
      (codes "s3:b")
      false
      (40 * day)
      (integrity works (codes "s3:b") seeded)
      machine
      (check_repository locked_once works bucket (codes "s3:b") false (40 * day) machine)
check_repository-Leaves_example =
    check_repository-Leaves locked_once works bucket (codes "s3:b") false (40 * day) machine
      (λ e. omega (arith, e))
