-- ===== src/Daemon/Attempt/Starting.antt =====
-- cmd/sion-backup/daemon.go: runBackup, and backup, which records an attempt that did not start.
use sion_backup.Prelude.{Bool, true, false, Option, none, some, List, if◌then◌else◌}
use sion_backup.Prelude.Text.{Text}
use sion_backup.Prelude.Result.{Result, ok, err}
use sion_backup.Restic.{ProcessEnd}
use sion_backup.Restic.Command.{Repository}
use sion_backup.Restic.Ops.{EnsureError}
use sion_backup.Plan.Record.{Plan, PlanError, runnable}
use sion_backup.Plan.Measurement.{Measurement}
use sion_backup.Credentials.{Set, CredentialError, repository, for_run}
use sion_backup.Backup.Run.{could_not_start}
use sion_backup.Backup.Execute.{World}
use sion_backup.Backup.Runner.{
  Runner, Request, RunEnd, already_running, not_opened, not_closed, closed, run,
  record_failed_start,
}
use sion_backup.Fleet.{Reply}
use sion_backup.Daemon.Opening.{open_repository}
use sion_backup.Daemon.Attempt.{
  start_event, Notice, started, StartError, not_runnable, no_restic, no_credentials, no_repository,
  running_already, row_not_written, row_not_closed, is_running_already, Attempt, Daemon,
  Circumstances, only_node, moved, moved_store, request, not_started,
}
use sion_backup.Daemon.Attempt.Following.{after_run}

-- `during`: what happens while a run executes; the other parameters are those of Following.
module _ {S V : Type 0} (exec : List Text → S → S × ProcessEnd) (during : Request → S → S × World)
    (measure_restic : Repository → S → S × Option Measurement) (send : V → Notice → V × Reply)
    (c : Circumstances) where
  -- From the end of Run on; `s` is the world after it executed.
  abbrev pub ran :
      Set → Repository → Request → S → Daemon S V → Runner × RunEnd → Daemon S V × Attempt
  ran set repo q s d (b, already_running) = (record d { runner = b }, not_started q running_already)
  ran set repo q s d (b, not_opened) = (
    record d { runner = b },
    record { request = q; started = true; error = some row_not_written },
  )
  ran set repo q s d (b, not_closed r) = (
    record d { world = s; runner = b },
    record { request = q; started = true; error = some (row_not_closed r) },
  )
  ran set repo q s d (b, closed r) = (
    after_run exec measure_restic send c set repo q.repository_url r
        (record d { world = s; runner = b }),
    record { request = q; started = true; error = none },
  )

  abbrev pub run_with : Set → Repository → Request → Daemon S V → S × World → Daemon S V × Attempt
  run_with set repo q d (s, w) =
      ran set repo q s d (run c.run_faults w c.verify_dir q c.begins_at c.ends_at d.runner)

  abbrev pub opened :
      Plan → Set → Repository → Request → Daemon S V → S × Option EnsureError → Daemon S V × Attempt
  opened p set repo q d (s, some e) = (record d { world = s }, not_started q (no_repository e))
  opened p set repo q d (s, none) =
      run_with set repo q
        (record d {
          world = s;
          server = (send d.server (started (start_event p c.run_uuid q.seeding c.begins_at))).0;
        })
        (during q s)

  -- With the plan that names the server's repository.
  abbrev pub located : Plan → Set → Daemon S V → Daemon S V × Attempt
  located p set d =
      let repo = repository set.credentials p.repository p.pack_size_mib p.read_concurrency in
      opened p set repo (request c p d.runner.history) d
        (open_repository exec set.expect_empty repo d.world)

  abbrev pub granted : Plan → Daemon S V → Result CredentialError Set → Daemon S V × Attempt
  granted p d (err e) = (d, not_started (only_node p) (no_credentials e))
  granted p d (ok set) =
      located (moved set p) set (record d { store = moved_store c set p d.store })

  abbrev pub equipped : Plan → Daemon S V → Option Text → Daemon S V × Attempt
  equipped p d (some e) = (d, not_started (only_node p) (no_restic e))
  equipped p d none = granted p d (for_run c.enrolled c.answer)

  abbrev pub permitted : Plan → Daemon S V → Option PlanError → Daemon S V × Attempt
  permitted p d (some e) = (d, not_started (only_node p) (not_runnable e))
  permitted p d none = equipped p d c.restic_error

  unfoldable pub run_backup : Plan → Daemon S V → Daemon S V × Attempt
  run_backup p d = permitted p d (runnable p)

  -- A row for an attempt that did not get as far as Run; `sentence`: the text of an error.
  abbrev pub recorded :
      (StartError → Text) → Request → Daemon S V → Bool → Option StartError → Daemon S V
  recorded sentence q d true e = d
  recorded sentence q d false none = d
  recorded sentence q d false (some e) = if is_running_already e then d else record d {
    runner = record d.runner {
      history =
          (record_failed_start c.run_faults q (could_not_start (sentence e)) c.ends_at
            d.runner.history).0;
    };
  }

  abbrev pub concluded : (StartError → Text) → Daemon S V × Attempt → Daemon S V × Option StartError
  concluded sentence (d, a) = (recorded sentence a.request d a.started a.error, a.error)

  unfoldable pub backup : (StartError → Text) → Plan → Daemon S V → Daemon S V × Option StartError
  backup sentence p d = concluded sentence (run_backup p d)
