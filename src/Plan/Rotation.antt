-- ===== src/Plan/Rotation.antt =====
-- business/domain/plan/planbus/rotation.go: when this machine should move to a fresh bucket.
pub mod Levels
pub mod Passing
use sion_backup.Prelude.{
  ℕ, Bool, true, false, ◌&&◌, ◌||◌, not, ℤ, pos, negsuc, leb_ℤ, ltb_ℤ, ltb, leb, if◌then◌else◌, ◌*◌,
  List, [], ◌∷◌, ◌++◌, Option, none, some,
}
use sion_backup.Prelude.Text.{Text, text_eq}
use sion_backup.Prelude.Time.{Time, Duration, is_zero, sub_time, day}
use sion_backup.Plan.Measurement.{Measurement, reclaimable}
use sion_backup.Plan.Integrity.{Integrity, failed}

abbrev pub rotate_after : ℕ
rotate_after = 365 * day

abbrev pub insist_after : ℕ
insist_after = 730 * day

abbrev pub min_age_for_rotation : ℕ
min_age_for_rotation = 90 * day

abbrev pub min_bytes_for_rotation : ℕ
min_bytes_for_rotation = 5368709120

pub data Urgency : Type 0 where
  not_yet worth_raising overdue urgent : Urgency

-- Urgency is an int in this order.
abbrev pub rank : Urgency → ℕ
rank not_yet = 0
rank worth_raising = 1
rank overdue = 2
rank urgent = 3

-- What the server says of the repository; its state is an enumeration with the words it knows.
pub record Bucket : Type 0 where
  pub url : Text
  pub created_at : Time
  pub state : Text
  pub adopted : Bool

unfoldable pub age : Bucket → Time → Duration
age b now =
    if is_zero b.created_at || ltb now b.created_at then pos 0 else sub_time now b.created_at

-- Go's float64, as far as the space argument uses it.
pub record Float : Type 1 where
  pub F : Type 0
  pub of_int64 : ℤ → F
  pub div : F → F → F
  pub le : F → F → Bool
  pub zero : F
  pub three_tenths : F

-- The reasons that fire, with the figure that each sentence shows.
pub data Reason (F : Type 0) : Type 0 where
  mostly_history : F → Reason F
  very_old old : Duration → Reason F
  unreadable : Reason F

pub record Offer (F : Type 0) : Type 0 where
  pub show : Bool
  pub urgency : Urgency
  pub reasons : List (Reason F)
  pub age : Duration
  pub reclaimable : ℤ
  pub fraction : F
  pub discards : Duration
  pub upload : ℤ

abbrev pub raise : {F : Type 0} → Urgency → Reason F → Offer F → Offer F
raise level reason o = record o {
  urgency = if ltb (rank o.urgency) (rank level) then level else o.urgency;
  reasons = o.reasons ++ reason ∷ [];
}

abbrev pub discards : Duration → Measurement → Time → Duration
discards a m now =
    if ltb_ℤ (pos 0) a then a else if not (is_zero m.since) then sub_time now m.since else pos 0

module _ (fl : Float) where
  open fl use {F, of_int64, div, le, zero, three_tenths}

  unfoldable pub fraction : Measurement → F
  fraction m = if leb_ℤ m.now (pos 0) then zero else div (of_int64 (reclaimable m)) (of_int64 m.now)

  -- The three conditions of the space argument, on a measurement that was taken.
  abbrev pub space_argument : Measurement → Duration → Bool
  space_argument m d =
      (not (is_zero m.measured_at) && ltb_ℤ (pos 0) m.now)
      && leb_ℤ (pos min_age_for_rotation) d
      && le three_tenths (fraction m)
      && leb_ℤ (pos min_bytes_for_rotation) (reclaimable m)

  abbrev pub with_space : Bool → Offer F → Offer F
  with_space fires o = if fires then raise worth_raising (mostly_history o.fraction) o else o

  abbrev pub with_age : Duration → Offer F → Offer F
  with_age a o =
      if leb_ℤ (pos insist_after) a
      then raise overdue (very_old a) o
      else if leb_ℤ (pos rotate_after) a
      then raise worth_raising (old a) o
      else o

  abbrev pub with_integrity : Bool → Offer F → Offer F
  with_integrity broken o = if broken then raise urgent unreadable o else o

  abbrev pub shown : Offer F → Offer F
  shown o = record o { show = ltb (rank not_yet) (rank o.urgency) }

  unfoldable pub consider : Time → Bucket → Measurement → Integrity → Offer F
  consider now b m i =
      let a = age b now in
      let d = discards a m now in
      shown (
        with_integrity (failed i) (
          with_age a (
            with_space (space_argument m d) (record {
              show = false;
              urgency = not_yet;
              reasons = [];
              age = a;
              reclaimable = reclaimable m;
              fraction = fraction m;
              discards = d;
              upload = m.fresh;
            }))))

abbrev pub insisting : {F : Type 0} → Offer F → Bool
insisting o = leb (rank overdue) (rank o.urgency)
