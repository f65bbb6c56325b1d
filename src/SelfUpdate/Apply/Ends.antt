-- ===== src/SelfUpdate/Apply/Ends.antt =====
-- foundation/selfupdate/selfupdate.go: how Apply ends.
use sion_backup.Prelude.{
  ◌≡◌, ◌⊎◌, true, false, Option, none, some, ◌||◌, refl, inl, inr, arith, Bool-cases,
}
use sion_backup.Prelude.Text.{Text, is_empty, equal_fold}
use sion_backup.SelfUpdate.Version.{newer}
use sion_backup.SelfUpdate.Disk.{Disk, Faults, Binary, staged, put, remove, smoke_test}
use sion_backup.SelfUpdate.Swap.{
  MoveError, lost, aside_failed, install_failed, staging_failed, swap,
}
use sion_backup.SelfUpdate.Swap.Safety.{SwapEnds, swap-SwapEnds}
use sion_backup.SelfUpdate.Refused.{refuses}
use sion_backup.SelfUpdate.Probation.{begin, write}
use sion_backup.SelfUpdate.Apply.{
  Release, Answer, no_source, source_failed, offered, Fetch, not_fetched, broken_off, fetched,
  ApplyError, not_swapped, not_writable, probe_left, Applied, installed, nothing_to_do, failed,
  apply, apply_writable, apply_downloaded, apply_swapped, writable, download,
}

-- What Apply has checked and done, by its result.
abbrev pub ApplyEnds : Text → Answer → Fetch → Disk → Binary → Disk × Applied → Type 0
ApplyEnds current a x d was (d', installed r) =
    (b : Binary) × (a ≡ offered r)
    × (newer current r.version ≡ true)
    × (refuses d r.version ≡ false)
    × (x ≡ fetched b)
    × (equal_fold b.sum r.sha256 ≡ true)
    × (smoke_test (some b) r.version ≡ true)
    × (d'.exe_file ≡ some b)
    × (d'.old_file ≡ some was)
ApplyEnds current a x d was (d', nothing_to_do) = d' ≡ d
ApplyEnds current a x d was (d', failed (not_swapped lost)) =
    (d'.exe_file ≡ none) × (d'.old_file ≡ some was)
ApplyEnds current a x d was (d', failed e) = d'.exe_file ≡ some was

module _ (f : Faults) (current : Text) (r : Release) (d : Disk) (was : Binary)
    (newer_tag : newer current r.version ≡ true) (unrefused : refuses d r.version ≡ false) where
  swapped_ends :
      (b : Binary) (s : Disk × Option MoveError)
      → equal_fold b.sum r.sha256 ≡ true
      → smoke_test (some b) r.version ≡ true
      → SwapEnds (some was) (some b) s
      → ApplyEnds current (offered r) (fetched b) d was (apply_swapped f current r s)
  unfolding remove begin write
  swapped_ends b (d', none) hs ht e =
      (b, refl, newer_tag, unrefused, refl, hs, ht, ground arith, ground arith)
  swapped_ends b (d', some lost) hs ht e = ground arith
  swapped_ends b (d', some aside_failed) hs ht e = ground arith
  swapped_ends b (d', some install_failed) hs ht e = ground arith
  swapped_ends b (d', some staging_failed) hs ht e = ground arith

  verified_ends :
      (b : Binary)
      → d.exe_file ≡ some was
      → equal_fold b.sum r.sha256 ≡ true
      → ApplyEnds current
          (offered r)
          (fetched b)
          d
          was
          (apply_downloaded f current r (put staged (some b) d, none))
  verified_ends b h hs = elim (Bool-cases (smoke_test (some b) r.version)) [
    | inl e ↦ rw e (
        swapped_ends b (swap f (put staged (some b) d)) hs e
          (swap-SwapEnds f (put staged (some b) d) was b h refl))
    | inr e ↦ unfold remove in rw e (ground arith)
  ]

  fetched_ends :
      (x : Fetch)
      → d.exe_file ≡ some was
      → ApplyEnds current (offered r) x d was (apply_downloaded f current r (download x r d))
  fetched_ends not_fetched h = unfold remove in ground arith
  fetched_ends (broken_off b) h = unfold remove in ground arith
  fetched_ends (fetched b) h = elim (Bool-cases (equal_fold b.sum r.sha256)) [
    | inl e ↦ rw e (verified_ends b h e)
    | inr e ↦ unfold remove in rw e (ground arith)
  ]

  checked_ends :
      (x : Fetch) (o : Option ApplyError)
      → (o ≡ none) ⊎ (o ≡ some not_writable) ⊎ (o ≡ some probe_left)
      → d.exe_file ≡ some was
      → ApplyEnds current (offered r) x d was (apply_writable o f current r x d)
  checked_ends x o (inl e) h = rw e (fetched_ends x h)
  checked_ends x o (inr (inl e)) h = rw e h
  checked_ends x o (inr (inr e)) h = rw e h

  writable_ends :
      (x : Fetch)
      → d.exe_file ≡ some was
      → ApplyEnds current (offered r) x d was (apply_writable (writable f) f current r x d)
  writable_ends x h = checked_ends x (writable f) (ground arith) h

-- Apply installs a release only if it is newer than the running version, is not refused, was fetched
-- whole with the release's hash, and runs and names its version; then that binary is in place and the
-- previous one beside it as .old. With nothing to do the disk is as it was. On an error the previous
-- binary is still in place, unless undoing a swap failed too, and then it is kept as .old.
pub apply-ApplyEnds :
    (f : Faults) (current : Text) (a : Answer) (x : Fetch) (d : Disk) (was : Binary)
    → d.exe_file ≡ some was
    → ApplyEnds current a x d was (apply f current a x d)
unfolding apply
apply-ApplyEnds f current no_source x d was h = h
apply-ApplyEnds f current source_failed x d was h = h
apply-ApplyEnds f current (offered r) x d was h =
    elim (Bool-cases (is_empty r.sha256 || is_empty r.url)) [
      | inl e ↦ rw e h
      | inr e ↦ rw e (elim (Bool-cases (newer current r.version)) [
        | inr n ↦ rw n refl
        | inl n ↦ rw n (elim (Bool-cases (refuses d r.version)) [
          | inl u ↦ rw u refl
          | inr u ↦ rw u (writable_ends f current r d was n u x h)
        ])
      ])
    ]
