-- ===== src/StatusPage/Green.antt =====
-- statusapp.go, verdictFor, of a run that backupbus.go has executed: what stands behind the headline that
-- this computer is backed up.
use sion_backup.Prelude.{
  Bool, true, false, none, some, ◌≡◌, refl, inl, inr, arith, Bool-cases, subst,
}
use sion_backup.Prelude.Text.{Text}
use sion_backup.Prelude.Time.{Time}
use sion_backup.Plan.Record.{Plan, confirmed}
use sion_backup.Restic.{Options, backup}
use sion_backup.Backup.Run.{
  Run, Outcome, success, degraded, incomplete, unverified, failed, cancelled,
}
use sion_backup.Backup.Execute.{World, execute}
use sion_backup.Backup.Execute.Verdict.{Verdict, all_targets, execute-Verdict}
use sion_backup.StatusPage.Verdict.{verdict_for, backed_up, of_outcome, stale}

of_outcome-backed_up :
    (o : Outcome) (old : Bool)
    → (of_outcome o old).headline ≡ backed_up
    → (o ≡ success) × (old ≡ false)
of_outcome-backed_up success false h = (refl, refl)
of_outcome-backed_up success true h = cc
of_outcome-backed_up degraded old h = cc
of_outcome-backed_up incomplete old h = cc
of_outcome-backed_up unverified old h = cc
of_outcome-backed_up cancelled false h = cc
of_outcome-backed_up cancelled true h = cc
of_outcome-backed_up failed old h = cc

verdict_for-backed_up :
    (p : Plan) (r : Run) (now : Time)
    → (verdict_for p (some r) false now).headline ≡ backed_up
    → (confirmed p ≡ true) × (p.paused ≡ false) × (r.outcome ≡ success) × (stale r now ≡ false)
unfolding verdict_for
verdict_for-backed_up p r now h = elim (Bool-cases (confirmed p)) [
  | inl c ↦ elim (Bool-cases p.paused) [
    | inl e ↦ absurd (ground arith)
    | inr e ↦
        let k : (of_outcome r.outcome (stale r now)).headline ≡ backed_up = simp (c, e) at h in
        let (s, t) = of_outcome-backed_up r.outcome (stale r now) k in (c, e, s, t)
  ]
  | inr c ↦ absurd (ground arith)
]

-- The page does not say that this computer is backed up unless it is: with no run going on and a last run
-- that began as failed and not verified, it says so only if that run's restic reported no error, the
-- bytes of the verification file came back from the repository, nobody stopped the run, and it began
-- no more than 48 hours before; and only for a plan that is confirmed and not paused.
pub green_means_backed_up :
    (w : World) (o : Options) (dir : Text) (r : Run) (p : Plan) (now : Time)
    → r.outcome ≡ failed
    → r.verified ≡ false
    → (verdict_for p (some (execute w o dir r)) false now).headline ≡ backed_up
    → ((backup w.windows w.process (all_targets o dir)).1 ≡ none)
      × (w.restored ≡ some w.nonce)
      × (w.stop ≡ none)
      × (stale (execute w o dir r) now ≡ false)
      × (confirmed p ≡ true)
      × (p.paused ≡ false)
green_means_backed_up w o dir r p now ho hv h =
    let (c, q, s, t) = verdict_for-backed_up p (execute w o dir r) now h in
    let made = backup w.windows w.process (all_targets o dir) in
    let v : Verdict w made (execute w o dir r) success =
      subst (Verdict w made (execute w o dir r)) s (execute-Verdict w o dir r ho hv) in
    let (e, b, _, _, n) = v in (e, b, n, t, c, q)
