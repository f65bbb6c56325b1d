-- ===== src/Tests/Rotation.antt =====
-- business/domain/plan/planbus/rotation.go and integrity.go at concrete inputs.
use sion_backup.Prelude.{◌≡◌, refl, ℕ, ◌*◌, ◌/◌, false, [], pos, leb, pos_part}
use sion_backup.Prelude.Text.{codes}
use sion_backup.Prelude.Time.{Time, day, sub_time}
use sion_backup.Plan.Measurement.{Measurement, reclaimable}
use sion_backup.Plan.Integrity.{Integrity, failed}
use sion_backup.Plan.Rotation.{Bucket, Float, consider, urgent, age, fraction}

-- Thousandths, for float64.
abbrev thousandths : Float
thousandths = record {
  F = ℕ;
  of_int64 = λ z. 1000 * pos_part z;
  div = λ a b. a / (b / 1000);
  le = leb;
  zero = 0;
  three_tenths = 300;
}

abbrev bucket : Bucket
bucket = record {
  url = codes "s3:b";
  created_at = 700000 * day;
  state = codes "active";
  adopted = false;
}

-- Ten gibibytes stored, of which six are needed.
abbrev measured : Measurement
measured = record {
  repository_url = codes "s3:b";
  since = 700000 * day;
  measured_at = 700100 * day;
  now = pos 10737418240;
  fresh = pos 6442450944;
  snapshots = pos 90;
}

abbrev broken : Integrity
broken = record {
  repository_url = codes "s3:b";
  checked_at = 700100 * day;
  subset = codes "64M";
  ok = false;
  detail = codes "pack";
  skipped_reason = [];
}

abbrev year_later : Time
year_later = 700400 * day

urgent_offer : (consider thousandths year_later bucket measured broken).urgency ≡ urgent
unfolding consider failed age sub_time fraction reclaimable
urgent_offer = refl
