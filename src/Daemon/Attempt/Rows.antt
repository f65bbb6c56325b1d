-- ===== src/Daemon/Attempt/Rows.antt =====
-- cmd/sion-backup/daemon.go and backupbus.go: the rows that an attempt at a backup writes.
use sion_backup.Prelude.{
  ℕ, Bool, true, false, Option, none, some, List, ◌∷◌, ◌≡◌, ◌≢◌, refl, ap, ◌∙◌, inl, inr, arith,
  Bool-cases, ==_refl,
}
use sion_backup.Prelude.Text.{Text}
use sion_backup.Prelude.Time.{Time}
use sion_backup.Backup.Run.{Run, failed, Message, could_not_start}
use sion_backup.Backup.Execute.{World}
use sion_backup.Backup.Store.{
  Row, History, create, finish, opened, closed_by, update, mark_reported, told_at,
}
use sion_backup.Backup.Store.Kept.{Below, IsHistory, update-Below}
use sion_backup.Backup.Runner.{
  Runner, Faults, Request, not_opened, run, run_opened, run_finished, started_run,
  record_failed_start, failed_start,
}
use sion_backup.Backup.Runner.Recorded.{executed, execute-id, finish_newest}
use sion_backup.Daemon.Attempt.{StartError, running_already, row_not_written, row_not_closed}

-- The newest row after an attempt with an error, before those that were there.
abbrev pub OneRow : List Row → Runner → (Row → Type 0) → Type 0
OneRow old b P = (x : Row) × (b.history.rows ≡ x ∷ old) × P x

-- What the history holds after an attempt, given the runner before it and the one after.
abbrev pub AttemptLeaves : (StartError → Text) → Runner → Option StartError → Runner → Type 0
AttemptLeaves sentence b none b' = OneRow b.history.rows b' (λ x. x.closed ≡ true)
AttemptLeaves sentence b (some running_already) b' = (b.running ≡ true) × (b' ≡ b)
AttemptLeaves sentence b (some row_not_written) b' = ⊥
AttemptLeaves sentence b (some (row_not_closed r)) b' =
    OneRow b.history.rows b' (λ x. (x.closed ≡ false) × (x.run.outcome ≡ failed))
AttemptLeaves sentence b (some e) b' =
    OneRow b.history.rows b'
      (λ x. (x.run.outcome ≡ failed) × (x.run.message ≡ could_not_start (sentence e)))

-- What holds when runBackup returns: an attempt that did not start has not touched the history.
abbrev pub RunBackupLeaves : Runner → Bool → Option StartError → Runner → Type 0
RunBackupLeaves b true e b' = (sentence : StartError → Text) → AttemptLeaves sentence b e b'
RunBackupLeaves b false none b' = ⊥
RunBackupLeaves b false (some running_already) b' = (b.running ≡ true) × (b' ≡ b)
RunBackupLeaves b false (some row_not_written) b' = ⊥
RunBackupLeaves b false (some (row_not_closed r)) b' = ⊥
RunBackupLeaves b false (some e) b' = b' ≡ b

pub executed-id :
    (w : World) (dir : Text) (q : Request) (t0 t1 : Time) (i : ℕ) (r : Run)
    → r ≡ executed w dir q t0 t1 i
    → r.id ≡ i
executed-id w dir q t0 t1 i r e =
    ap (λ x. x.id) e ∙ execute-id w q.options dir (record (started_run q t0) { id = i })

run_finished-opens : (r : Run) (x : History × Bool) → (run_finished r x).1 ≢ not_opened
run_finished-opens r (h, true) e = cc
run_finished-opens r (h, false) e = cc

run_opened-opens :
    (c : Bool) (f : Faults) (w : World) (dir : Text) (q : Request) (t0 t1 : Time) (h : History)
    → c ≡ false
    → (run_opened f w dir q t0 t1 (create c (started_run q t0) h)).1 ≢ not_opened
run_opened-opens true f w dir q t0 t1 h c e = cc
run_opened-opens false f w dir q t0 t1 h c e =
    let r = executed w dir q t0 t1 h.next_id in
    run_finished-opens r (finish f.finish r (create false (started_run q t0) h).0) e

pub run_opens :
    (f : Faults) (w : World) (dir : Text) (q : Request) (t0 t1 : Time) (s : Runner)
    → f.create ≡ false
    → (run f w dir q t0 t1 s).1 ≢ not_opened
unfolding run
run_opens f w dir q t0 t1 s c h = elim (Bool-cases s.running) [
  | inl e ↦ absurd (ground arith)
  | inr e ↦ run_opened-opens f.create f w dir q t0 t1 s.history c (ground arith)
]

update_first :
    (change : Row → Row) (x : Row) (xs : List Row)
    → Below x.run.id xs
    → update x.run.id change (x ∷ xs) ≡ change x ∷ xs
unfolding update
update_first change x xs b = rw (==_refl x.run.id, update-Below x.run.id change xs b) refl

-- A finished row stays the newest when it is marked as reported.
pub mark_first :
    (fails : Bool) (r r0 : Run) (i : ℕ) (at : Time) (old : List Row) (h : History)
    → r.id ≡ i
    → Below i old
    → h.rows ≡ closed_by r (opened i r0) ∷ old
    → (x : Row) × ((mark_reported fails r.id at h).0.rows ≡ x ∷ old) × (x.closed ≡ true)
unfolding mark_reported
mark_first true r r0 i at old h e b k = (closed_by r (opened i r0), k, refl)
mark_first false r r0 i at old h e b k = (
  told_at at (closed_by r (opened i r0)),
  rw (k, e) (update_first (told_at at) (closed_by r (opened i r0)) old b),
  refl,
)

-- The row of a failed start, also where it could not be closed.
finished_start-OneRow :
    (b : Bool) (q : Request) (m : Message) (at : Time) (running : Bool) (h : History)
    → IsHistory h
    → OneRow h.rows
        (record {
          running = running;
          history =
              (finish b
                (record (started_run q at) { id = h.next_id; finished_at = at; message = m })
                (create false (record (started_run q at) { message = m }) h).0).0;
        })
        (λ x. (x.run.outcome ≡ failed) × (x.run.message ≡ m))
unfolding finish
finished_start-OneRow true q m at running h k =
    (opened h.next_id (record (started_run q at) { message = m }), refl, (refl, refl))
finished_start-OneRow false q m at running h k =
    let r = record (started_run q at) { id = h.next_id; finished_at = at; message = m } in
    let r0 = record (started_run q at) { message = m } in
    (
      closed_by r (opened h.next_id r0),
      ap (λ x. x.0.rows) (finish_newest r r0 h.next_id h.rows refl k),
      (refl, refl),
    )

created_start-OneRow :
    (c : Bool) (f : Faults) (q : Request) (m : Message) (at : Time) (running : Bool) (h : History)
    → c ≡ false
    → IsHistory h
    → OneRow h.rows
        (record {
          running = running;
          history =
              (failed_start f q m at (create c (record (started_run q at) { message = m }) h)).0;
        })
        (λ x. (x.run.outcome ≡ failed) × (x.run.message ≡ m))
created_start-OneRow true f q m at running h c k = cc
created_start-OneRow false f q m at running h c k =
    finished_start-OneRow f.finish q m at running h k

pub failed_start-OneRow :
    (f : Faults) (q : Request) (m : Message) (at : Time) (running : Bool) (h : History)
    → f.create ≡ false
    → IsHistory h
    → OneRow h.rows
        (record { running = running; history = (record_failed_start f q m at h).0 })
        (λ x. (x.run.outcome ≡ failed) × (x.run.message ≡ m))
unfolding record_failed_start
failed_start-OneRow f q m at running h c k = created_start-OneRow f.create f q m at running h c k
