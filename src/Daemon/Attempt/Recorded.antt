-- ===== src/Daemon/Attempt/Recorded.antt =====
-- cmd/sion-backup/daemon.go: no attempt at a backup goes unrecorded.
use sion_backup.Prelude.{
  ℕ, Bool, true, false, Option, none, some, List, ◌∷◌, ◌≡◌, ◌≢◌, refl, sym, ◌∙◌, subst, inl, inr,
  Bool-cases,
}
use sion_backup.Prelude.Text.{Text}
use sion_backup.Prelude.Result.{Result, ok, err}
use sion_backup.Restic.{ProcessEnd}
use sion_backup.Restic.Command.{Repository}
use sion_backup.Restic.Ops.{EnsureError}
use sion_backup.Plan.Record.{Plan, PlanError, runnable}
use sion_backup.Plan.Measurement.{Measurement}
use sion_backup.Credentials.{Set, CredentialError, for_run, repository}
use sion_backup.Backup.Run.{Run, Message, failed, could_not_start}
use sion_backup.Backup.Execute.{World}
use sion_backup.Backup.Store.{Row, opened, closed_by}
use sion_backup.Backup.Store.Kept.{Below, IsHistory}
use sion_backup.Backup.Runner.{
  Runner, Request, RunEnd, started_run, already_running, not_opened, not_closed, closed, run,
  record_failed_start,
}
use sion_backup.Backup.Runner.Recorded.{RunLeaves, run-RunLeaves}
use sion_backup.Fleet.{Reply, landed, rejected, unreachable, event_for}
use sion_backup.Daemon.Opening.{open_repository}
use sion_backup.Daemon.Attempt.Starting.{run_backup, backup}
use sion_backup.Daemon.Attempt.Following
use sion_backup.Daemon.Attempt.Starting
use sion_backup.Daemon.Attempt.{
  Daemon, Notice, StartError, is_running_already, not_runnable, no_restic, no_credentials,
  no_repository, running_already, row_not_written, row_not_closed, Circumstances, may_release,
  started, finished, start_event, moved, moved_store, request,
}
use sion_backup.Daemon.Attempt.Steps.{after_snapshot-Same}
use sion_backup.Daemon.Attempt.Rows.{
  AttemptLeaves, RunBackupLeaves, OneRow, executed-id, run_opens, mark_first, failed_start-OneRow,
}

module _ {S V : Type 0} (exec : List Text → S → S × ProcessEnd) (during : Request → S → S × World)
    (measure_restic : Repository → S → S × Option Measurement) (send : V → Notice → V × Reply)
    (c : Circumstances) where
  release-runner :
      (set : Set) (url : Text) (r : Run) (d : Daemon S V)
      → (Following.release exec measure_restic send c set url r d).runner ≡ d.runner
  release-runner set url r d = elim (Bool-cases (may_release set r)) [
    | inl e ↦ rw e refl
    | inr e ↦ rw e refl
  ]

  after_run-runner :
      (set : Set) (repo : Repository) (url : Text) (r : Run) (d : Daemon S V)
      → (Following.after_run exec measure_restic send c set repo url r d).runner
        ≡ (Following.told exec measure_restic send c r d
            (send d.server (finished (event_for r)))).runner
  after_run-runner set repo url r d =
      let d1 =
        Following.told exec measure_restic send c r d (send d.server (finished (event_for r))) in
      release-runner set url r (Following.after_snapshot exec measure_restic send c repo url r d1)
      ∙ (after_snapshot-Same exec measure_restic send c repo url r d1).0

  told-OneRow :
      (r r0 : Run) (d : Daemon S V) (i : ℕ) (old : List Row) (x : V × Reply)
      → r.id ≡ i
      → Below i old
      → d.runner.history.rows ≡ closed_by r (opened i r0) ∷ old
      → OneRow old (Following.told exec measure_restic send c r d x).runner (λ y. y.closed ≡ true)
  told-OneRow r r0 d i old (v, landed) e b k =
      mark_first c.mark_fails r r0 i c.ends_at old d.runner.history e b k
  told-OneRow r r0 d i old (v, rejected) e b k = (closed_by r (opened i r0), k, refl)
  told-OneRow r r0 d i old (v, unreachable) e b k = (closed_by r (opened i r0), k, refl)

  ran-Leaves :
      (set : Set) (repo : Repository) (q : Request) (s : S) (w : World) (d : Daemon S V)
      (x : Runner × RunEnd)
      → IsHistory d.runner.history
      → RunLeaves w c.verify_dir q c.begins_at c.ends_at d.runner x
      → x.1 ≢ not_opened
      → let y = Starting.ran exec during measure_restic send c set repo q s d x in
        RunBackupLeaves d.runner y.1.started y.1.error y.0.runner
  ran-Leaves set repo q s w d (b, already_running) k l n = l
  ran-Leaves set repo q s w d (b, not_opened) k l n = absurd (n refl)
  ran-Leaves set repo q s w d (b, not_closed r) k (i, o, e, h) n =
      λ sentence. (opened d.runner.history.next_id (started_run q c.begins_at), h, (refl, refl))
  ran-Leaves set repo q s w d (b, closed r) k (i, o, e, h) n = λ sentence.
      let d' = record d { world = s; runner = b } in
      subst (λ z. OneRow d.runner.history.rows z (λ y. y.closed ≡ true))
        (sym (after_run-runner set repo q.repository_url r d'))
        (told-OneRow r (started_run q c.begins_at) d' d.runner.history.next_id d.runner.history.rows
          (send d.server (finished (event_for r)))
          (executed-id w c.verify_dir q c.begins_at c.ends_at d.runner.history.next_id r e) k h)

  run_with-Leaves :
      (set : Set) (repo : Repository) (q : Request) (d : Daemon S V) (x : S × World)
      → c.run_faults.create ≡ false
      → IsHistory d.runner.history
      → let y = Starting.run_with exec during measure_restic send c set repo q d x in
        RunBackupLeaves d.runner y.1.started y.1.error y.0.runner
  run_with-Leaves set repo q d (s, w) f k =
      ran-Leaves set repo q s w d (run c.run_faults w c.verify_dir q c.begins_at c.ends_at d.runner)
        k (run-RunLeaves c.run_faults w c.verify_dir q c.begins_at c.ends_at d.runner k)
        (run_opens c.run_faults w c.verify_dir q c.begins_at c.ends_at d.runner f)

  opened-Leaves :
      (p : Plan) (set : Set) (repo : Repository) (q : Request) (d : Daemon S V)
      (x : S × Option EnsureError)
      → c.run_faults.create ≡ false
      → IsHistory d.runner.history
      → let y = Starting.opened exec during measure_restic send c p set repo q d x in
        RunBackupLeaves d.runner y.1.started y.1.error y.0.runner
  opened-Leaves p set repo q d (s, some e) f k = refl
  opened-Leaves p set repo q d (s, none) f k =
      run_with-Leaves set repo q
        (record d {
          world = s;
          server = (send d.server (started (start_event p c.run_uuid q.seeding c.begins_at))).0;
        })
        (during q s) f k

  located-Leaves :
      (p : Plan) (set : Set) (d : Daemon S V)
      → c.run_faults.create ≡ false
      → IsHistory d.runner.history
      → let y = Starting.located exec during measure_restic send c p set d in
        RunBackupLeaves d.runner y.1.started y.1.error y.0.runner
  located-Leaves p set d f k =
      let repo = repository set.credentials p.repository p.pack_size_mib p.read_concurrency in
      opened-Leaves p set repo (request c p d.runner.history) d
        (open_repository exec set.expect_empty repo d.world) f k

  granted-Leaves :
      (p : Plan) (d : Daemon S V) (x : Result CredentialError Set)
      → c.run_faults.create ≡ false
      → IsHistory d.runner.history
      → let y = Starting.granted exec during measure_restic send c p d x in
        RunBackupLeaves d.runner y.1.started y.1.error y.0.runner
  granted-Leaves p d (err e) f k = refl
  granted-Leaves p d (ok set) f k =
      located-Leaves (moved set p) set (record d { store = moved_store c set p d.store }) f k

  equipped-Leaves :
      (p : Plan) (d : Daemon S V) (x : Option Text)
      → c.run_faults.create ≡ false
      → IsHistory d.runner.history
      → let y = Starting.equipped exec during measure_restic send c p d x in
        RunBackupLeaves d.runner y.1.started y.1.error y.0.runner
  equipped-Leaves p d (some e) f k = refl
  equipped-Leaves p d none f k = granted-Leaves p d (for_run c.enrolled c.answer) f k

  run_backup-Leaves :
      (p : Plan) (d : Daemon S V)
      → c.run_faults.create ≡ false
      → IsHistory d.runner.history
      → let y = run_backup exec during measure_restic send c p d in
        RunBackupLeaves d.runner y.1.started y.1.error y.0.runner
  unfolding run_backup
  run_backup-Leaves p d f k = permitted-Leaves (runnable p)
    where
      permitted-Leaves :
          (x : Option PlanError)
          → let y = Starting.permitted exec during measure_restic send c p d x in
            RunBackupLeaves d.runner y.1.started y.1.error y.0.runner
      permitted-Leaves (some e) = refl
      permitted-Leaves none = equipped-Leaves p d c.restic_error f k

  failed_row :
      (b : Runner) (q : Request) (m : Message) (r : Runner)
      → c.run_faults.create ≡ false
      → IsHistory b.history
      → r ≡ b
      → OneRow b.history.rows
          (record r { history = (record_failed_start c.run_faults q m c.ends_at r.history).0 })
          (λ x. (x.run.outcome ≡ failed) × (x.run.message ≡ m))
  failed_row b q m r f k e =
      subst
        (λ z.
          OneRow b.history.rows
            (record z { history = (record_failed_start c.run_faults q m c.ends_at z.history).0 })
            (λ x. (x.run.outcome ≡ failed) × (x.run.message ≡ m)))
        (sym e) (failed_start-OneRow c.run_faults q m c.ends_at b.running b.history f k)

  recorded-Leaves :
      (sentence : StartError → Text) (b : Runner) (q : Request) (d : Daemon S V) (s : Bool)
      (e : Option StartError)
      → c.run_faults.create ≡ false
      → IsHistory b.history
      → RunBackupLeaves b s e d.runner
      → AttemptLeaves sentence b e
          (Starting.recorded exec during measure_restic send c sentence q d s e).runner
  unfolding is_running_already
  recorded-Leaves sentence b q d true e f k l = l sentence
  recorded-Leaves sentence b q d false none f k l = absurd l
  recorded-Leaves sentence b q d false (some running_already) f k l = l
  recorded-Leaves sentence b q d false (some row_not_written) f k l = absurd l
  recorded-Leaves sentence b q d false (some (row_not_closed r)) f k l = absurd l
  recorded-Leaves sentence b q d false (some (not_runnable x)) f k l =
      failed_row b q (could_not_start (sentence (not_runnable x))) d.runner f k l
  recorded-Leaves sentence b q d false (some (no_restic x)) f k l =
      failed_row b q (could_not_start (sentence (no_restic x))) d.runner f k l
  recorded-Leaves sentence b q d false (some (no_credentials x)) f k l =
      failed_row b q (could_not_start (sentence (no_credentials x))) d.runner f k l
  recorded-Leaves sentence b q d false (some (no_repository x)) f k l =
      failed_row b q (could_not_start (sentence (no_repository x))) d.runner f k l

  -- No attempt goes unrecorded. With a history whose ids descend from below the next one, and a store
  -- that writes new rows: an attempt at a backup that returns no error leaves one closed row before the
  -- old rows, which stay as they were; one refused because another runs changes nothing in the run
  -- history; one whose outcome could not be written leaves its row open and failed; and one that did not
  -- get as far as a run leaves one failed row that says why.
  pub backup-AttemptLeaves :
      (sentence : StartError → Text) (p : Plan) (d : Daemon S V)
      → c.run_faults.create ≡ false
      → IsHistory d.runner.history
      → AttemptLeaves sentence d.runner
          (backup exec during measure_restic send c sentence p d).1
          (backup exec during measure_restic send c sentence p d).0.runner
  unfolding backup
  backup-AttemptLeaves sentence p d f k =
      let y = run_backup exec during measure_restic send c p d in
      recorded-Leaves sentence d.runner y.1.request y.0 y.1.started y.1.error f k
        (run_backup-Leaves p d f k)
