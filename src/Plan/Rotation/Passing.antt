-- ===== src/Plan/Rotation/Passing.antt =====
-- business/domain/plan/planbus/rotation.go: time that passes never makes a rotation less urgent.
use sion_backup.Prelude.{◌≤◌, ◌<◌, ◌≡◌, ◌⊎◌, Bool, true, pos, leb_ℤ, if◌then◌else◌, arith, ◌≤ℤ◌}
use sion_backup.Prelude.Time.{Time, sub_time, Duration}
use sion_backup.Plan.Measurement.{Measurement}
use sion_backup.Plan.Integrity.{Integrity, failed}
use sion_backup.Plan.Rotation.{
  Bucket, Float, Urgency, not_yet, worth_raising, overdue, urgent, age, discards, consider,
  space_argument, rotate_after, insist_after, rank,
}
use sion_backup.Plan.Rotation.Levels.{consider_level}

-- The server's date of the bucket is not ahead of this machine's clock.
abbrev pub ClockAgrees : Bucket → Time → Type 0
ClockAgrees b now = (b.created_at ≡ 0) ⊎ (b.created_at < now)

age_mono : (b : Bucket) (t u : Time) → t ≤ u → age b t ≤ℤ age b u
unfolding age sub_time
age_mono b t u h = ground arith

discards_mono :
    (b : Bucket) (m : Measurement) (t u : Time)
    → t ≤ u
    → ClockAgrees b t
    → discards (age b t) m t ≤ℤ discards (age b u) m u
unfolding age sub_time
discards_mono b m t u h c = ground arith

space_mono :
    (fl : Float) (m : Measurement) (d e : Duration)
    → d ≤ℤ e
    → space_argument fl m d ≡ true
    → space_argument fl m e ≡ true
space_mono fl m d e h s = ground arith

abbrev level : Bool → Duration → Bool → Urgency
level broken a space =
    if broken
    then urgent
    else if leb_ℤ (pos insist_after) a
    then overdue
    else if leb_ℤ (pos rotate_after) a
    then worth_raising
    else if space
    then worth_raising
    else not_yet

level_mono :
    (broken : Bool) (a a' : Duration) (space space' : Bool)
    → a ≤ℤ a'
    → (space ≡ true → space' ≡ true)
    → rank (level broken a space) ≤ rank (level broken a' space')
level_mono broken a a' space space' h k = ground arith

-- With the same facts about the bucket, the measurement and the last check, and a clock that agrees
-- with the server's, the level at a later time is no lower.
pub urgency_mono :
    (fl : Float) (t u : Time) (b : Bucket) (m : Measurement) (i : Integrity)
    → t ≤ u
    → ClockAgrees b t
    → rank (consider fl t b m i).urgency ≤ rank (consider fl u b m i).urgency
urgency_mono fl t u b m i h c =
    rw ((consider_level fl t b m i).0, (consider_level fl u b m i).0)
      (level_mono (failed i) (age b t) (age b u) (space_argument fl m (discards (age b t) m t))
        (space_argument fl m (discards (age b u) m u)) (age_mono b t u h)
        (space_mono fl m (discards (age b t) m t) (discards (age b u) m u)
          (discards_mono b m t u h c)))
