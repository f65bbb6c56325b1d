-- ===== src/SelfUpdate/Probation/Tries.antt =====
-- foundation/selfupdate/probation.go: how often a version on probation is tried.
use sion_backup.Prelude.{
  ℕ, suc, false, Option, none, some, List, [], ◌∷◌, ◌≡◌, ◌≤◌, ◌+◌, ◌-◌, ◌⊎◌, inl, inr, refl, arith,
  leb, All, Bool-cases,
}
use sion_backup.Prelude.Text.{Text, is_empty}
use sion_backup.SelfUpdate.Disk.{Disk, Faults, Probation, done, remove, rename}
use sion_backup.SelfUpdate.Swap.{move_back}
use sion_backup.SelfUpdate.Refused.{refuse}
use sion_backup.SelfUpdate.Probation.{
  probation_starts, read, roll_back, start, Outcome, on_probation, write, RollBackError, given_up,
  start_of,
}
use sion_backup.SelfUpdate.Probation.Ends.{files-refuse}

-- The program started once for each item, each time with what the disk refuses then.
unfoldable pub restarts : List Faults → Disk → Disk
restarts [] d = d
restarts (f ∷ fs) d = restarts fs (start f d).0

abbrev pub one_if_tried : Outcome → ℕ
one_if_tried on_probation = 1
one_if_tried _ = 0

-- How many of these starts try the version on probation.
unfoldable pub tries : List Faults → Disk → ℕ
tries [] d = 0
tries (f ∷ fs) d = one_if_tried (start f d).1.outcome + tries fs (start f d).0

-- The tries that a version has left.
abbrev left : Option Probation → ℕ
left none = 0
left (some p) = probation_starts - p.starts

probation-move_back : (f : Faults) (d : Disk) → (move_back f d).0.probation_file ≡ d.probation_file
unfolding move_back rename
probation-move_back f d = ground arith

probation-roll_back :
    (f : Faults) (p : Probation) (d : Disk) → (roll_back f p d).0.probation_file ≡ d.probation_file
unfolding roll_back
probation-roll_back f p d =
    ground (arith, files-refuse f p.installed d, probation-move_back f (refuse f p.installed d))

pub read_installed : (d : Disk) (p : Probation) → read d ≡ some p → is_empty p.installed ≡ false
unfolding read
read_installed d p h = ground arith

left-given_up :
    (f : Faults) (p : Probation) (d : Disk)
    → left (read d) ≡ 0
    → left (read (given_up f p (roll_back f p d)).0) ≡ 0
unfolding read
left-given_up f p d h = ground (arith, probation-roll_back f p d)

tried-given_up :
    (f : Faults) (p : Probation) (r : Disk × (Text ⊎ RollBackError))
    → one_if_tried (given_up f p r).1.outcome ≡ 0
tried-given_up f p (d, inl v) = refl
tried-given_up f p (d, inr e) = refl

left-attempt :
    (f : Faults) (d : Disk) (o : Option Probation)
    → f.write_probation ≡ done
    → read d ≡ o
    → one_if_tried (start_of o f d).1.outcome + left (read (start_of o f d).0) ≤ left (read d)
left-attempt f d none h r = unfold read remove in ground arith
left-attempt f d (some p) h r = elim (Bool-cases (leb (suc p.starts) probation_starts)) [
  | inl e ↦ rw (r, e) (unfold write read in rw (h, read_installed d p r) (ground arith))
  | inr e ↦
      let q : Probation = record p { starts = suc p.starts } in
      let zero_left : left (read d) ≡ 0 = rw r (ground arith) in
      rw e (omega (arith, left-given_up f q d zero_left, tried-given_up f q (roll_back f q d)))
]

left-start :
    (f : Faults) (d : Disk)
    → f.write_probation ≡ done
    → one_if_tried (start f d).1.outcome + left (read (start f d).0) ≤ left (read d)
unfolding start
left-start f d h = left-attempt f d (read d) h refl

tries-le-left :
    (fs : List Faults) (d : Disk)
    → All (λ f. f.write_probation ≡ done) fs
    → tries fs d ≤ left (read d)
unfolding tries
tries-le-left [] d h = omega arith
tries-le-left (f ∷ fs) d h = omega (arith, left-start f d h.0, tries-le-left fs (start f d).0 h.1)

-- However often the program is started and whatever else the disk refuses, as long as each start can
-- be recorded a version is tried at most three times.
pub tries-le :
    (fs : List Faults) (d : Disk)
    → All (λ f. f.write_probation ≡ done) fs
    → tries fs d ≤ probation_starts
tries-le fs d h = omega (arith, tries-le-left fs d h, left-le (read d))
  where
    left-le : (o : Option Probation) → left o ≤ probation_starts
    left-le none = omega arith
    left-le (some p) = omega arith
