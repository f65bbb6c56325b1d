-- ===== src/Plan/Measurement.antt =====
-- business/domain/plan/planbus/measurement.go.
use sion_backup.Prelude.{Bool, ◌||◌, ℤ, pos, leb_ℤ, if◌then◌else◌, sub_ℕ, ◌+◌, pos_part, neg_part}
use sion_backup.Prelude.Text.{Text}
use sion_backup.Prelude.Time.{Time, Duration, is_zero, sub_time}

pub record Measurement : Type 0 where
  pub repository_url : Text
  pub since : Time
  pub measured_at : Time
  pub now : ℤ
  pub fresh : ℤ
  pub snapshots : ℤ

-- Subtraction of int64 values, the first the larger; the difference of two byte counts fits.
unfoldable pub reclaimable : Measurement → ℤ
reclaimable m =
    if leb_ℤ m.now m.fresh
    then pos 0
    else sub_ℕ (pos_part m.now + neg_part m.fresh) (neg_part m.now + pos_part m.fresh)

unfoldable pub stale : Measurement → Time → Duration → Bool
stale m now every = is_zero m.measured_at || leb_ℤ every (sub_time now m.measured_at)
