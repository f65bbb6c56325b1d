-- ===== src/Daemon/Checking.antt =====
-- cmd/sion-backup/daemon.go: checkRepository, the weekly reading back of the repository.
pub mod Damage
use sion_backup.Prelude.{
  ℕ, Bool, true, false, Option, none, some, List, [], ◌∷◌, ◌++◌, not, if◌then◌else◌, ℤ, pos,
}
use sion_backup.Prelude.Text.{Text, codes, itoa}
use sion_backup.Prelude.Result.{Result, ok, err}
use sion_backup.Prelude.Time.{Time}
use sion_backup.Restic.{ProcessEnd, Failure, retryable}
use sion_backup.Restic.Command.{Repository}
use sion_backup.Restic.Ops.{check, check_args, unlock, error_text}
use sion_backup.Plan.Measurement.{Measurement}
use sion_backup.Plan.Integrity.{Integrity, check_subset, due}
use sion_backup.Plan.Store.{Store, StoreFaults}
use sion_backup.Plan.Business.{integrity, measurement, record_integrity, PlanFault}

-- The end of one check.
pub data CheckEnd : Type 0 where
  metered lock_stuck in_use sound : CheckEnd
  damaged : Failure → CheckEnd

abbrev pub integrity_of : CheckEnd → Text → Text → Time → Integrity
integrity_of metered url subset now = record {
  repository_url = url;
  checked_at = now;
  subset = [];
  ok = false;
  detail = [];
  skipped_reason = codes "metered connection";
}
integrity_of lock_stuck url subset now = record {
  repository_url = url;
  checked_at = now;
  subset = subset;
  ok = false;
  detail = [];
  skipped_reason = codes "the repository was locked and the lock could not be cleared";
}
integrity_of in_use url subset now = record {
  repository_url = url;
  checked_at = now;
  subset = subset;
  ok = false;
  detail = [];
  skipped_reason = codes "the repository was locked by something still running";
}
integrity_of (damaged e) url subset now = record {
  repository_url = url;
  checked_at = now;
  subset = subset;
  ok = false;
  detail = error_text (check_args subset) e;
  skipped_reason = [];
}
integrity_of sound url subset now = record {
  repository_url = url;
  checked_at = now;
  subset = subset;
  ok = true;
  detail = [];
  skipped_reason = [];
}

abbrev pub subset_text : ℤ → Text
subset_text bytes = itoa (pos (check_subset bytes)) ++ codes "M"

-- The size from the last measurement, or nothing.
abbrev pub measured_size : Result PlanFault Measurement → ℤ
measured_size (ok m) = m.now
measured_size (err e) = pos 0

-- What restic works on, the plan's store, and the damage that was reported.
pub record Machine (S : Type 0) : Type 0 where
  pub world : S
  pub store : Store
  pub reports : List Failure

abbrev pub reported : CheckEnd → List Failure → List Failure
reported (damaged e) rs = rs ++ e ∷ []
reported metered rs = rs
reported lock_stuck rs = rs
reported in_use rs = rs
reported sound rs = rs

module _ {S : Type 0} (exec : List Text → S → S × ProcessEnd) where
  -- The end of a check that no lock is cleared after.
  abbrev pub last_end : S × Option Failure → S × CheckEnd
  last_end (s, none) = (s, sound)
  last_end (s, some e) = (s, if retryable e then in_use else damaged e)

  abbrev pub unlocked_end : Repository → Text → S × Option Failure → S × CheckEnd
  unlocked_end repo subset (s, some e) = (s, lock_stuck)
  unlocked_end repo subset (s, none) = last_end (check exec repo subset s)

  abbrev pub first_end : Repository → Text → S × Option Failure → S × CheckEnd
  first_end repo subset (s, none) = (s, sound)
  first_end repo subset (s, some e) =
      if retryable e then unlocked_end repo subset (unlock exec repo s) else (s, damaged e)

  -- The check, and once more after clearing a lock.
  unfoldable pub checked : Repository → Text → S → S × CheckEnd
  checked repo subset s = first_end repo subset (check exec repo subset s)

  abbrev pub recorded :
      StoreFaults → Text → Text → Time → Store → List Failure → S × CheckEnd → Machine S
  recorded f url subset now store reports (s, e) = record {
    world = s;
    store = (record_integrity f (integrity_of e url subset now) store).0;
    reports = reported e reports;
  }

  abbrev pub check_due : StoreFaults → Repository → Text → Bool → Time → Machine S → Machine S
  check_due f repo url is_metered now m =
      if is_metered
      then recorded f url [] now m.store m.reports (m.world, metered)
      else let subset = subset_text (measured_size (measurement f url now m.store)) in
        recorded f url subset now m.store m.reports (checked repo subset m.world)

  abbrev pub check_after :
      Result PlanFault Integrity
      → StoreFaults
      → Repository
      → Text
      → Bool
      → Time
      → Machine S
      → Machine S
  check_after (err e) f repo url is_metered now m = m
  check_after (ok last) f repo url is_metered now m =
      if due last url now then check_due f repo url is_metered now m else m

  unfoldable pub check_repository :
      StoreFaults → Repository → Text → Bool → Time → Machine S → Machine S
  check_repository f repo url is_metered now m =
      check_after (integrity f url m.store) f repo url is_metered now m
