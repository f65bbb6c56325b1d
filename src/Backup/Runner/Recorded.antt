-- ===== src/Backup/Runner/Recorded.antt =====
-- business/domain/backup/backupbus/backupbus.go: what Run leaves in the history.
use sion_backup.Prelude.{
  ℕ, suc, Bool, true, false, Option, none, some, List, [], ◌∷◌, ◌≡◌, refl, subst, inl, inr, arith,
  ◌++◌, Bool-cases, ==_refl, if◌then◌else◌,
}
use sion_backup.Prelude.Text.{Text}
use sion_backup.Prelude.Time.{Time}
use sion_backup.Restic.{Failure, Summary, Options, backup, incomplete}
use sion_backup.Backup.Run.{Run, Unread, success}
use sion_backup.Backup.Run
use sion_backup.Backup.Execute.{
  World, execute, checked, not_backed_up, backed_up, unless_stopped, prepared, verify, with_summary,
}
use sion_backup.Backup.Store.{Row, create, finish, opened, closed_by, update, holds}
use sion_backup.Backup.Store.Kept.{IsHistory, Below, update-Below}
use sion_backup.Backup.Runner.{
  Runner, Faults, Request, started_run, RunEnd, already_running, not_opened, not_closed, closed,
  run, run_opened, run_finished, released,
}

-- The run that execute leaves, with its time of finishing.
abbrev pub executed : World → Text → Request → Time → Time → ℕ → Run
executed w dir q started finished i =
    record (execute w q.options dir (record (started_run q started) { id = i })) {
      finished_at = finished;
    }

-- What holds after each end of a run, given the runner before it.
abbrev pub RunLeaves : World → Text → Request → Time → Time → Runner → Runner × RunEnd → Type 0
RunLeaves w dir q t0 t1 s (s', already_running) = (s.running ≡ true) × (s' ≡ s)
RunLeaves w dir q t0 t1 s (s', not_opened) =
    (s.running ≡ false) × (s'.running ≡ false) × (s'.history ≡ s.history)
RunLeaves w dir q t0 t1 s (s', not_closed r) =
    (s.running ≡ false)
    × (s'.running ≡ false)
    × (r ≡ executed w dir q t0 t1 s.history.next_id)
    × (s'.history.rows ≡ opened s.history.next_id (started_run q t0) ∷ s.history.rows)
RunLeaves w dir q t0 t1 s (s', closed r) =
    (s.running ≡ false)
    × (s'.running ≡ false)
    × (r ≡ executed w dir q t0 t1 s.history.next_id)
    × (s'.history.rows ≡ closed_by r (opened s.history.next_id (started_run q t0)) ∷ s.history.rows)

checked-id : (o : Option Unread) (r : Run) → (checked o r).id ≡ r.id
checked-id (some e) r = refl
checked-id none r = ground arith

not_backed_up-id : (w : World) (e : Failure) (r : Run) → (not_backed_up w e r).id ≡ r.id
not_backed_up-id w e r = ground arith

backed_up-id : (w : World) (b : Summary × Option Failure) (r : Run) → (backed_up w b r).id ≡ r.id
backed_up-id w (s, none) r =
    checked-id (verify w.nonce w.restored) (record (with_summary s r) { outcome = success })
backed_up-id w (s, some e) r = elim (Bool-cases (incomplete e)) [
  | inl t ↦ rw t (
      checked-id (verify w.nonce w.restored) (record (with_summary s r) {
        outcome = Run.incomplete;
        message = Run.files_unreadable s.error_count;
      }))
  | inr t ↦ rw t (not_backed_up-id w e (with_summary s r))
]

unless_stopped-id :
    (o : Option Text) (w : World) (b : Summary × Option Failure) (r : Run)
    → (unless_stopped o w b r).id ≡ r.id
unless_stopped-id (some reason) w b r = refl
unless_stopped-id none w b r = backed_up-id w b r

prepared-id :
    (c n : Option Text) (w : World) (o : Options) (dir : Text) (r : Run)
    → (prepared c n w o dir r).id ≡ r.id
prepared-id (some e) n w o dir r = refl
prepared-id none (some e) w o dir r = refl
prepared-id none none w o dir r =
    unless_stopped-id w.stop w
      (backup w.windows w.process (record o { targets = o.targets ++ dir ∷ [] })) r

pub execute-id : (w : World) (o : Options) (dir : Text) (r : Run) → (execute w o dir r).id ≡ r.id
unfolding execute
execute-id w o dir r = prepared-id w.clear_error w.nonce_error w o dir r

finish_first :
    (r r0 : Run) (rows : List Row)
    → Below r.id rows
    → finish false r (record { rows = opened r.id r0 ∷ rows; next_id = suc r.id })
      ≡ (record { rows = closed_by r (opened r.id r0) ∷ rows; next_id = suc r.id }, true)
unfolding finish update holds
finish_first r r0 rows b = rw (==_refl r.id, update-Below r.id (closed_by r) rows b) refl

-- Finishing the newest run changes its row alone.
pub finish_newest :
    (r r0 : Run) (i : ℕ) (rows : List Row)
    → r.id ≡ i
    → Below i rows
    → finish false r (record { rows = opened i r0 ∷ rows; next_id = suc i })
      ≡ (record { rows = closed_by r (opened i r0) ∷ rows; next_id = suc i }, true)
finish_newest r r0 i rows e =
    subst
      (λ n.
        Below n rows
        → finish false r (record { rows = opened n r0 ∷ rows; next_id = suc n })
          ≡ (record { rows = closed_by r (opened n r0) ∷ rows; next_id = suc n }, true))
      e (finish_first r r0 rows)

finished-RunLeaves :
    (b : Bool) (w : World) (dir : Text) (q : Request) (t0 t1 : Time) (s : Runner) (r : Run)
    → r ≡ executed w dir q t0 t1 s.history.next_id
    → r.id ≡ s.history.next_id
    → s.running ≡ false
    → IsHistory s.history
    → RunLeaves w dir q t0 t1 s (
        released (
          run_finished r (
            finish b r (record {
              rows = opened s.history.next_id (started_run q t0) ∷ s.history.rows;
              next_id = suc s.history.next_id;
            }))))
unfolding finish
finished-RunLeaves true w dir q t0 t1 s r x i e k = (e, refl, x, refl)
finished-RunLeaves false w dir q t0 t1 s r x i e k =
    rw (finish_newest r (started_run q t0) s.history.next_id s.history.rows i k) (e, refl, x, refl)

run_opened-RunLeaves :
    (c : Bool) (f : Faults) (w : World) (dir : Text) (q : Request) (t0 t1 : Time) (s : Runner)
    → s.running ≡ false
    → IsHistory s.history
    → RunLeaves w dir q t0 t1 s
        (released (run_opened f w dir q t0 t1 (create c (started_run q t0) s.history)))
run_opened-RunLeaves true f w dir q t0 t1 s e k = (e, refl, refl)
run_opened-RunLeaves false f w dir q t0 t1 s e k =
    finished-RunLeaves f.finish w dir q t0 t1 s (executed w dir q t0 t1 s.history.next_id) refl
      (execute-id w q.options dir (record (started_run q t0) { id = s.history.next_id })) e k

guarded-RunLeaves :
    (f : Faults) (w : World) (dir : Text) (q : Request) (t0 t1 : Time) (s : Runner) (b : Bool)
    → s.running ≡ b
    → IsHistory s.history
    → RunLeaves w dir q t0 t1 s (
        if b
        then (s, already_running)
        else released (run_opened f w dir q t0 t1 (create f.create (started_run q t0) s.history)))
guarded-RunLeaves f w dir q t0 t1 s true e k = (e, refl)
guarded-RunLeaves f w dir q t0 t1 s false e k = run_opened-RunLeaves f.create f w dir q t0 t1 s e k

pub run-RunLeaves :
    (f : Faults) (w : World) (dir : Text) (q : Request) (t0 t1 : Time) (s : Runner)
    → IsHistory s.history
    → RunLeaves w dir q t0 t1 s (run f w dir q t0 t1 s)
unfolding run
run-RunLeaves f w dir q t0 t1 s k = guarded-RunLeaves f w dir q t0 t1 s s.running refl k
