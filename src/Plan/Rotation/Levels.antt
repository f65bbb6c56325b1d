-- ===== src/Plan/Rotation/Levels.antt =====
-- business/domain/plan/planbus/rotation.go: which arguments set the level of an offer.
use sion_backup.Prelude.{
  ℕ, ◌+◌, ◌≡◌, Bool, true, false, pos, leb_ℤ, if◌then◌else◌, arith, length, ltb,
}
use sion_backup.Prelude.Time.{Time}
use sion_backup.Plan.Measurement.{Measurement}
use sion_backup.Plan.Integrity.{Integrity, failed}
use sion_backup.Plan.Rotation.{
  Bucket, Float, not_yet, worth_raising, overdue, urgent, age, discards, consider, space_argument,
  rotate_after, insist_after, rank,
}

abbrev pub one_if : Bool → ℕ
one_if true = 1
one_if false = 0

-- The level is urgent exactly when the last check failed; failing that, overdue when the bucket is two
-- years old; failing that, worth raising when it is one year old or the space argument holds; and
-- otherwise none. The offer is shown when the level is any but none, and it lists one reason for each
-- of the three arguments that fired.
pub consider_level :
    (fl : Float) (now : Time) (b : Bucket) (m : Measurement) (i : Integrity)
    → let o = consider fl now b m i in
      let space = space_argument fl m (discards (age b now) m now) in
      (o.urgency ≡ (
        if failed i
        then urgent
        else if leb_ℤ (pos insist_after) (age b now)
        then overdue
        else if leb_ℤ (pos rotate_after) (age b now)
        then worth_raising
        else if space
        then worth_raising
        else not_yet))
      × (o.show ≡ ltb 0 (rank o.urgency))
      × (length o.reasons
          ≡ one_if space + one_if (leb_ℤ (pos rotate_after) (age b now)) + one_if (failed i))
unfolding consider
consider_level fl now b m i = ground arith
