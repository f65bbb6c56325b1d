-- ===== src/Backup/Execute/Verdict.antt =====
-- business/domain/backup/backupbus/backupbus.go: what each outcome of a run stands for.
use sion_backup.Prelude.{
  Bool, true, false, Option, none, some, List, [], ◌∷◌, ◌++◌, ◌≡◌, ◌≢◌, inl, inr, refl, arith,
  Bool-cases,
}
use sion_backup.Prelude.Text.{Text, text_eq_iff, text_eq_refl}
use sion_backup.Restic.{
  Failure, Summary, Process, Options, clean, backup, incomplete, retryable, has_none,
}
use sion_backup.Backup.Run.{
  Run, Outcome, success, degraded, unverified, failed, cancelled, Message, Unread, not_restored,
  different,
}
use sion_backup.Backup.Run
use sion_backup.Backup.Execute.{
  World, verify, checked, not_backed_up, backed_up, unless_stopped, prepared, execute, with_summary,
}

-- The options of the backup: the targets and the directory of the verification file.
abbrev pub all_targets : Options → Text → Options
all_targets o dir = record o { targets = o.targets ++ dir ∷ [] }

-- The error of the backup, if it is one of unreadable files.
abbrev pub IsIncomplete : Option Failure → Type 0
IsIncomplete none = ⊥
IsIncomplete (some e) = incomplete e ≡ true

-- What holds of a run that has ended with an outcome, given the summary and the error of its backup.
abbrev pub Verdict : World → Summary × Option Failure → Run → Outcome → Type 0
Verdict w (s, e) r success =
    (e ≡ none)
    × (w.restored ≡ some w.nonce)
    × (r.verified ≡ true)
    × (r.vss_fell_back ≡ false)
    × (w.stop ≡ none)
Verdict w (s, e) r degraded =
    (e ≡ none)
    × (w.restored ≡ some w.nonce)
    × (r.verified ≡ true)
    × (r.vss_fell_back ≡ true)
    × (w.stop ≡ none)
Verdict w (s, e) r Run.incomplete =
    IsIncomplete e × (w.restored ≡ some w.nonce) × (r.verified ≡ true) × (w.stop ≡ none)
Verdict w (s, e) r unverified = (w.restored ≢ some w.nonce) × (r.verified ≡ false) × (w.stop ≡ none)
Verdict w (s, e) r failed = r.verified ≡ false
Verdict w (s, e) r cancelled = (w.stop ≢ none) × (r.verified ≡ false)

verify_same : (want : Text) (got : Option Text) → verify want got ≡ none → got ≡ some want
unfolding verify
verify_same want none h = cc
verify_same want (some g) h = ground (arith, text_eq_iff g want)

verify_differs :
    (want : Text) (got : Option Text) {e : Unread} → verify want got ≡ some e → got ≢ some want
unfolding verify
verify_differs want none h = λ k. cc
verify_differs want (some g) h = λ k. ground (arith, text_eq_iff g want)

checked_clean :
    (w : World) (s : Summary) (r : Run) (o : Option Unread)
    → verify w.nonce w.restored ≡ o
    → w.stop ≡ none
    → r.outcome ≡ success
    → r.verified ≡ false
    → Verdict w (s, none) (checked o r) (checked o r).outcome
checked_clean w s r none v st ho hv = elim (Bool-cases r.vss_fell_back) [
  | inl e ↦ ground (arith, verify_same w.nonce w.restored)
  | inr e ↦ ground (arith, verify_same w.nonce w.restored)
]
checked_clean w s r (some x) v st ho hv = (verify_differs w.nonce w.restored v, hv, st)

checked-incomplete :
    (w : World) (s : Summary) (e : Failure) (r : Run) (o : Option Unread)
    → verify w.nonce w.restored ≡ o
    → incomplete e ≡ true
    → w.stop ≡ none
    → r.outcome ≡ Run.incomplete
    → r.verified ≡ false
    → Verdict w (s, some e) (checked o r) (checked o r).outcome
checked-incomplete w s e r none v i st ho hv = ground (arith, verify_same w.nonce w.restored)
checked-incomplete w s e r (some x) v i st ho hv = (verify_differs w.nonce w.restored v, hv, st)

not_backed_up-Verdict :
    (w : World) (b : Summary × Option Failure) (e : Failure) (r : Run)
    → r.outcome ≡ failed
    → r.verified ≡ false
    → Verdict w b (not_backed_up w e r) (not_backed_up w e r).outcome
not_backed_up-Verdict w (s, o) e r ho hv = elim (Bool-cases (retryable e)) [
  | inl t ↦ ground arith
  | inr t ↦ ground arith
]

backed_up-Verdict :
    (w : World) (b : Summary × Option Failure) (r : Run)
    → w.stop ≡ none
    → r.outcome ≡ failed
    → r.verified ≡ false
    → Verdict w b (backed_up w b r) (backed_up w b r).outcome
backed_up-Verdict w (s, none) r st ho hv =
    checked_clean w s (record (with_summary s r) { outcome = success }) (verify w.nonce w.restored)
      refl st refl hv
backed_up-Verdict w (s, some e) r st ho hv = elim (Bool-cases (incomplete e)) [
  | inl t ↦ rw t (
      checked-incomplete w s e
        (record (with_summary s r) {
          outcome = Run.incomplete;
          message = Run.files_unreadable s.error_count;
        })
        (verify w.nonce w.restored) refl t st refl hv)
  | inr t ↦ rw t (not_backed_up-Verdict w (s, some e) e (with_summary s r) ho hv)
]

unless_stopped-Verdict :
    (w : World) (o : Option Text) (b : Summary × Option Failure) (r : Run)
    → w.stop ≡ o
    → r.outcome ≡ failed
    → r.verified ≡ false
    → Verdict w b (unless_stopped o w b r) (unless_stopped o w b r).outcome
unless_stopped-Verdict w (some reason) (s, e) r st ho hv = (λ k. cc, hv)
unless_stopped-Verdict w none b r st ho hv = backed_up-Verdict w b r st ho hv

prepared-Verdict :
    (w : World) (o : Options) (dir : Text) (r : Run) (c n : Option Text)
    → r.outcome ≡ failed
    → r.verified ≡ false
    → Verdict w
        (backup w.windows w.process (all_targets o dir))
        (prepared c n w o dir r)
        (prepared c n w o dir r).outcome
prepared-Verdict w o dir r (some e) n ho hv = rw ho hv
prepared-Verdict w o dir r none (some e) ho hv = rw ho hv
prepared-Verdict w o dir r none none ho hv =
    unless_stopped-Verdict w w.stop (backup w.windows w.process (all_targets o dir)) r refl ho hv

-- A run that begins as failed and not verified is recorded as a success only if restic reported
-- no error, the bytes of the verification file came back from the repository, no run without a
-- filesystem snapshot had to do, and nobody stopped it; degraded stands for the same with such a
-- fallback; incomplete for restic's own status of unreadable files and bytes that came back;
-- unverified for bytes that did not; cancelled for a run somebody stopped. A run with any other
-- end stays failed, and only the first three are verified.
pub execute-Verdict :
    (w : World) (o : Options) (dir : Text) (r : Run)
    → r.outcome ≡ failed
    → r.verified ≡ false
    → Verdict w
        (backup w.windows w.process (all_targets o dir))
        (execute w o dir r)
        (execute w o dir r).outcome
unfolding execute
execute-Verdict w o dir r ho hv = prepared-Verdict w o dir r w.clear_error w.nonce_error ho hv

has_none-append : (ts : List Text) (dir : Text) → has_none (ts ++ dir ∷ []) ≡ false
has_none-append [] dir = refl
has_none-append (t ∷ ts) dir = refl

backup_clean :
    (windows : Bool) (run : Process) (o : Options) (dir : Text) (s : Summary)
    → run o.use_fs_snapshot ≡ (s, clean)
    → backup windows run (all_targets o dir) ≡ (s, none)
unfolding backup
backup_clean windows run o dir s h = rw (has_none-append o.targets dir, h) refl

read_back : (w : World) → w.restored ≡ some w.nonce → verify w.nonce w.restored ≡ none
unfolding verify
read_back w h = rw h (rw (text_eq_refl w.nonce) refl)

proved_run :
    (s : Summary) (r : Run)
    → s.vss_fell_back ≡ false
    → ((checked none (record (with_summary s r) { outcome = success })).outcome ≡ success)
      × ((checked none (record (with_summary s r) { outcome = success })).verified ≡ true)
      × ((checked none (record (with_summary s r) { outcome = success })).snapshot_id
          ≡ s.snapshot_id)
proved_run s r h = ground arith

-- The other way round: a run whose preparation worked, that nobody stopped, whose process ended
-- cleanly as it was first started with a summary that marks no fallback, and whose verification
-- file came back, is a verified success with the snapshot of that summary.
pub clean_run_succeeds :
    (w : World) (o : Options) (dir : Text) (r : Run) (s : Summary)
    → w.clear_error ≡ none
    → w.nonce_error ≡ none
    → w.stop ≡ none
    → w.process o.use_fs_snapshot ≡ (s, clean)
    → s.vss_fell_back ≡ false
    → w.restored ≡ some w.nonce
    → ((execute w o dir r).outcome ≡ success)
      × ((execute w o dir r).verified ≡ true)
      × ((execute w o dir r).snapshot_id ≡ s.snapshot_id)
unfolding execute
clean_run_succeeds w o dir r s hc hn hs hp hf hr =
    simp (hc, hn, hs, backup_clean w.windows w.process o dir s hp, read_back w hr)
      (proved_run s r hf)
