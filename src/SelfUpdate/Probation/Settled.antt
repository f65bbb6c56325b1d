-- ===== src/SelfUpdate/Probation/Settled.antt =====
-- foundation/selfupdate/probation.go: a version that Settle has accepted.
use sion_backup.Prelude.{false, Option, none, some, List, [], ◌∷◌, ◌≡◌, refl, arith}
use sion_backup.SelfUpdate.Disk.{Disk, Faults, Probation, Binary, remove}
use sion_backup.SelfUpdate.Probation.{read, start, settle, settle_of}
use sion_backup.SelfUpdate.Probation.Tries.{restarts}

idle_start :
    (f : Faults) (d : Disk) (b : Binary)
    → d.exe_file ≡ some b
    → read d ≡ none
    → ((start f d).0.exe_file ≡ some b) × (read (start f d).0 ≡ none)
unfolding start
idle_start f d b hb r = rw r (unfold remove read in ground arith)

idle_restarts :
    (fs : List Faults) (d : Disk) (b : Binary)
    → d.exe_file ≡ some b
    → read d ≡ none
    → ((restarts fs d).exe_file ≡ some b) × (read (restarts fs d) ≡ none)
unfolding restarts
idle_restarts [] d b hb r = (hb, r)
idle_restarts (f ∷ fs) d b hb r =
    let (hb', r') = idle_start f d b hb r in idle_restarts fs (start f d).0 b hb' r'

settle_of_ends :
    (f : Faults) (d : Disk) (b : Binary) (o : Option Probation)
    → f.remove_probation ≡ false
    → d.exe_file ≡ some b
    → read d ≡ o
    → ((settle_of o f d).exe_file ≡ some b) × (read (settle_of o f d) ≡ none)
settle_of_ends f d b none hf hb r = (hb, r)
settle_of_ends f d b (some p) hf hb r = unfold remove read in ground arith

settle_ends :
    (f : Faults) (d : Disk) (b : Binary)
    → f.remove_probation ≡ false
    → d.exe_file ≡ some b
    → ((settle f d).exe_file ≡ some b) × (read (settle f d) ≡ none)
unfolding settle
settle_ends f d b hf hb = settle_of_ends f d b (read d) hf hb refl

-- A version whose probation could be removed when it was settled is kept: however often the
-- program starts afterwards, and whatever the disk refuses then, the binary in place stays and no
-- start finds anything on probation.
pub settled_stays :
    (f : Faults) (fs : List Faults) (d : Disk) (b : Binary)
    → f.remove_probation ≡ false
    → d.exe_file ≡ some b
    → ((restarts fs (settle f d)).exe_file ≡ some b) × (read (restarts fs (settle f d)) ≡ none)
settled_stays f fs d b hf hb =
    let (ends, none_left) = settle_ends f d b hf hb in
    idle_restarts fs (settle f d) b ends none_left
