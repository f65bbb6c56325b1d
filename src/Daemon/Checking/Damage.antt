-- ===== src/Daemon/Checking/Damage.antt =====
-- cmd/sion-backup/daemon.go: what a recorded check may be read as.
use sion_backup.Prelude.{
  Bool, true, false, Option, none, some, List, [], ◌∷◌, ◌++◌, ◌≡◌, ◌≢◌, ◌⊎◌, inl, inr, refl, arith,
  Bool-cases,
}
use sion_backup.Prelude.Text.{Text}
use sion_backup.Prelude.Result.{Result, ok, err}
use sion_backup.Prelude.Time.{Time}
use sion_backup.Restic.{ProcessEnd, Failure, retryable}
use sion_backup.Restic.Command.{Repository}
use sion_backup.Restic.Ops.{check, unlock}
use sion_backup.Plan.Integrity.{Integrity, failed, due}
use sion_backup.Plan.Store.{Store, StoreFaults}
use sion_backup.Plan.Business.{PlanFault, integrity, record_integrity, measurement}
use sion_backup.Daemon.Checking.{
  CheckEnd, metered, lock_stuck, in_use, sound, damaged, integrity_of, subset_text, measured_size,
  Machine, last_end, unlocked_end, first_end, checked, recorded, check_due, check_after,
  check_repository,
}

recorded-or :
    (f : StoreFaults) (i : Integrity) (s : Store)
    → ((record_integrity f i s).0 ≡ s) ⊎ ((record_integrity f i s).0.integrity ≡ i)
unfolding record_integrity
recorded-or f i s = elim (Bool-cases f.put_integrity) [
  | inl p ↦ inl (simp p refl)
  | inr p ↦ inr (simp p refl)
]

abbrev pub IsCalmEnd : CheckEnd → Type 0
IsCalmEnd (damaged e) = ⊥
IsCalmEnd metered = Unit
IsCalmEnd lock_stuck = Unit
IsCalmEnd in_use = Unit
IsCalmEnd sound = Unit

skipped_calm :
    (e : CheckEnd) (url subset : Text) (now : Time)
    → IsCalmEnd e
    → failed (integrity_of e url subset now) ≡ false
unfolding failed
skipped_calm metered url subset now c = ground arith
skipped_calm lock_stuck url subset now c = ground arith
skipped_calm in_use url subset now c = ground arith
skipped_calm sound url subset now c = ground arith
skipped_calm (damaged e) url subset now c = absurd c

failed-damaged :
    (e : Failure) (url subset : Text) (now : Time)
    → now ≢ 0
    → failed (integrity_of (damaged e) url subset now) ≡ true
unfolding failed
failed-damaged e url subset now n = ground arith

module _ {S : Type 0} (exec : List Text → S → S × ProcessEnd) where
  -- Some check of the repository ended with a failure that is no lock.
  abbrev pub Damaged : Repository → Failure → Type 0
  Damaged repo e =
      (retryable e ≡ false) × ((subset : Text) × (s : S) × ((check exec repo subset s).1 ≡ some e))

  abbrev pub EndOf : Repository → CheckEnd → Type 0
  EndOf repo (damaged e) = Damaged repo e
  EndOf repo metered = Unit
  EndOf repo lock_stuck = Unit
  EndOf repo in_use = Unit
  EndOf repo sound = (subset : Text) × (s : S) × ((check exec repo subset s).1 ≡ none)

  last_end-EndOf :
      (repo : Repository) (subset : Text) (s : S) (r : S × Option Failure)
      → check exec repo subset s ≡ r
      → EndOf repo (last_end exec r).1
  last_end-EndOf repo subset s (t, none) h = (subset, s, rw h refl)
  last_end-EndOf repo subset s (t, some e) h = elim (Bool-cases (retryable e)) [
    | inl l ↦ rw l tt
    | inr l ↦ rw l (l, (subset, s, rw h refl))
  ]

  unlocked_end-EndOf :
      (repo : Repository) (subset : Text) (r : S × Option Failure)
      → EndOf repo (unlocked_end exec repo subset r).1
  unlocked_end-EndOf repo subset (s, some e) = tt
  unlocked_end-EndOf repo subset (s, none) =
      last_end-EndOf repo subset s (check exec repo subset s) refl

  first_end-EndOf :
      (repo : Repository) (subset : Text) (s : S) (r : S × Option Failure)
      → check exec repo subset s ≡ r
      → EndOf repo (first_end exec repo subset r).1
  first_end-EndOf repo subset s (t, none) h = (subset, s, rw h refl)
  first_end-EndOf repo subset s (t, some e) h = elim (Bool-cases (retryable e)) [
    | inl l ↦ rw l (unlocked_end-EndOf repo subset (unlock exec repo t))
    | inr l ↦ rw l (l, (subset, s, rw h refl))
  ]

  -- The store is as it was, or holds a check that does not count as failed.
  abbrev pub IsCalm : Store → Store → Type 0
  IsCalm was now = (now ≡ was) ⊎ (failed now.integrity ≡ false)

  -- The record of the last check can be read, and by it a check is due.
  abbrev pub IsDue : Text → Time → Result PlanFault Integrity → Type 0
  IsDue url now r = (last : Integrity) × (r ≡ ok last) × (due last url now ≡ true)

  -- What a check may change, where one is due: the record of the last check and the reports.
  abbrev pub Leaves :
      Repository → Text → Bool → Time → Result PlanFault Integrity → Machine S → Machine S → Type 0
  Leaves repo url is_metered now r m n =
      (n ≡ m)
      ⊎ IsDue url now r × (n.reports ≡ m.reports) × IsCalm m.store n.store
      ⊎ ((e : Failure) × Damaged repo e
          × IsDue url now r
          × (is_metered ≡ false)
          × (n.reports ≡ m.reports ++ e ∷ [])
          × ((n.store ≡ m.store) ⊎ (failed n.store.integrity ≡ true)))

  IsCalm-recorded :
      (f : StoreFaults) (i : Integrity) (s : Store)
      → failed i ≡ false
      → IsCalm s (record_integrity f i s).0
  IsCalm-recorded f i s h = elim (recorded-or f i s) [ inl e ↦ inl e | inr e ↦ inr (rw e h) ]

  recorded-Leaves :
      (f : StoreFaults) (repo : Repository) (url subset : Text) (now : Time) (m : Machine S)
      (r : S × CheckEnd) (i : Result PlanFault Integrity)
      → now ≢ 0
      → IsDue url now i
      → EndOf repo r.1
      → Leaves repo url false now i m (recorded exec f url subset now m.store m.reports r)
  recorded-Leaves f repo url subset now m (s, damaged e) i n k d = inr (
      inr (
        e,
        d,
        k,
        refl,
        refl,
        elim (recorded-or f (integrity_of (damaged e) url subset now) m.store) [
          | inl h ↦ inl h
          | inr h ↦ inr (rw h (failed-damaged e url subset now n))
        ],
      ))
  recorded-Leaves f repo url subset now m (s, metered) i n k d = inr (
      inl (
        k,
        refl,
        IsCalm-recorded f (integrity_of metered url subset now) m.store
            (skipped_calm metered url subset now tt),
      ))
  recorded-Leaves f repo url subset now m (s, lock_stuck) i n k d = inr (
      inl (
        k,
        refl,
        IsCalm-recorded f (integrity_of lock_stuck url subset now) m.store
            (skipped_calm lock_stuck url subset now tt),
      ))
  recorded-Leaves f repo url subset now m (s, in_use) i n k d = inr (
      inl (
        k,
        refl,
        IsCalm-recorded f (integrity_of in_use url subset now) m.store
            (skipped_calm in_use url subset now tt),
      ))
  recorded-Leaves f repo url subset now m (s, sound) i n k d = inr (
      inl (
        k,
        refl,
        IsCalm-recorded f (integrity_of sound url subset now) m.store
            (skipped_calm sound url subset now tt),
      ))

  check_due-Leaves :
      (b : Bool) (f : StoreFaults) (repo : Repository) (url : Text) (now : Time) (m : Machine S)
      (i : Result PlanFault Integrity)
      → now ≢ 0
      → IsDue url now i
      → Leaves repo url b now i m (check_due exec f repo url b now m)
  unfolding checked
  check_due-Leaves true f repo url now m i n k = inr (
      inl (
        k,
        refl,
        IsCalm-recorded f (integrity_of metered url [] now) m.store
            (skipped_calm metered url [] now tt),
      ))
  check_due-Leaves false f repo url now m i n k =
      let subset = subset_text (measured_size (measurement f url now m.store)) in
      recorded-Leaves f repo url subset now m (checked exec repo subset m.world) i n k
        (first_end-EndOf repo subset m.world (check exec repo subset m.world) refl)

  check_after-Leaves :
      (r : Result PlanFault Integrity) (b : Bool) (f : StoreFaults) (repo : Repository) (url : Text)
      (now : Time) (m : Machine S)
      → now ≢ 0
      → Leaves repo url b now r m (check_after exec r f repo url b now m)
  check_after-Leaves (err e) b f repo url now m n = inl refl
  check_after-Leaves (ok last) b f repo url now m n = elim (Bool-cases (due last url now)) [
    | inl d ↦ rw d (check_due-Leaves b f repo url now m (ok last) n (last, refl, d))
    | inr d ↦ rw d (inl refl)
  ]

  -- A lock, a metered connection or a check that was not due is never recorded or reported as damage:
  -- nothing at all has changed; or a check was due by the record that could be read, nothing is
  -- reported, and the record is unchanged or one that does not count as failed; or a check was due and
  -- one failure is reported that some check of the repository ended with, that is no lock,
  -- on a connection that is not metered, and the record counts as failed unless the store is unchanged.
  -- The clock is not at the zero time.
  pub check_repository-Leaves :
      (f : StoreFaults) (repo : Repository) (url : Text) (is_metered : Bool) (now : Time)
      (m : Machine S)
      → now ≢ 0
      → Leaves repo url is_metered now
          (integrity f url m.store)
          m
          (check_repository exec f repo url is_metered now m)
  unfolding check_repository
  check_repository-Leaves f repo url is_metered now m n =
      check_after-Leaves (integrity f url m.store) is_metered f repo url now m n
