-- ===== src/Plan/Integrity.antt =====
-- business/domain/plan/planbus/integrity.go: the weekly reading back of the repository.
use sion_backup.Prelude.{
  ℕ, Bool, true, ◌&&◌, not, ℤ, pos, negsuc, leb_ℤ, ltb, if◌then◌else◌, ◌/◌, ◌*◌, ◌≤◌, ◌<◌, ◌≡◌,
  arith, ◌+◌,
}
use sion_backup.Prelude.Text.{Text, is_empty, text_eq}
use sion_backup.Prelude.Time.{Time, is_zero, sub_time, day}

pub record Integrity : Type 0 where
  pub repository_url : Text
  pub checked_at : Time
  pub subset : Text
  pub ok : Bool
  pub detail : Text
  pub skipped_reason : Text

abbrev pub check_every : ℕ
check_every = 7 * day

abbrev pub check_slice_per_week : ℕ
check_slice_per_week = 52

abbrev pub min_check_bytes : ℕ
min_check_bytes = 67108864

abbrev pub max_check_bytes : ℕ
max_check_bytes = 1073741824

abbrev pub clamped : ℕ → ℕ
clamped want =
    if ltb want min_check_bytes
    then min_check_bytes
    else if ltb max_check_bytes want
    then max_check_bytes
    else want

-- CheckSubset, as the number of mebibytes before the "M". A negative size divides to no more than
-- zero, which is below the floor.
unfoldable pub check_subset : ℤ → ℕ
check_subset (pos n) = clamped (n / check_slice_per_week) / 1048576
check_subset (negsuc n) = min_check_bytes / 1048576

unfoldable pub due : Integrity → Text → Time → Bool
due i repository now =
    if not (text_eq i.repository_url repository)
    then true
    else leb_ℤ (pos check_every) (sub_time now i.checked_at)

unfoldable pub failed : Integrity → Bool
failed i = not (is_zero i.checked_at) && is_empty i.skipped_reason && not i.ok

-- Whatever the repository's size, a week's slice is between 64 and 1024 MiB; and 52 slices of one
-- mebibyte more exceed any repository of at most 52 GiB.
pub check_subset_bounds :
    (bytes : ℤ)
    → (64 ≤ check_subset bytes)
      × (check_subset bytes ≤ 1024)
      × ((n : ℕ)
          → bytes ≡ pos n
          → n ≤ 52 * max_check_bytes
          → n < 52 * (check_subset bytes + 1) * 1048576)
unfolding check_subset
check_subset_bounds (pos n) = (ground arith, ground arith, λ k e h. ground arith)
check_subset_bounds (negsuc n) = (omega arith, omega arith, λ k e h. cc)
