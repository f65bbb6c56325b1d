-- ===== src/SelfUpdate/Probation/CrashLoop.antt =====
-- foundation/selfupdate/probation.go: a version that is started again and again.
use sion_backup.Prelude.{
  suc, true, false, none, some, List, [], ◌∷◌, ◌≡◌, ◌≤◌, refl, arith, leb, ◌∙◌, length,
}
use sion_backup.Prelude.Text.{Text}
use sion_backup.SelfUpdate.Disk.{
  Disk, Faults, Probation, state, Binary, smoke_test, no_faults, rename,
}
use sion_backup.SelfUpdate.Swap.{move_back}
use sion_backup.SelfUpdate.Refused.{refuse, refuses, refused_lines, max_refused}
use sion_backup.SelfUpdate.Refused.Parsing.{IsClean}
use sion_backup.SelfUpdate.Refused.Bounds.{refuse-refuses}
use sion_backup.SelfUpdate.Probation.{
  probation_starts, read, roll_back, start, on_probation, rolled_back, Start, write, given_up,
}
use sion_backup.SelfUpdate.Probation.Ends.{files-refuse}
use sion_backup.SelfUpdate.Probation.Tries.{restarts, read_installed}

-- What the program leaves when a version is given up on.
abbrev pub CrashEnds : Binary → Binary → Text → Disk × Start → Type 0
CrashEnds bad good u (d, s) =
    (s.outcome ≡ rolled_back)
    × (s.version ≡ u)
    × (d.exe_file ≡ some good)
    × (d.old_file ≡ some bad)
    × (read d ≡ none)

abbrev one_more : Probation → Probation
one_more p = record p { starts = suc p.starts }

-- A start with attempts left counts itself and changes nothing else.
start_tried :
    (d : Disk) (p : Probation)
    → read d ≡ some p
    → leb (suc p.starts) probation_starts ≡ true
    → start no_faults d ≡ (
      record d { probation_file = some (state (one_more p)) },
      record { outcome = on_probation; version = p.installed; failed = []; starts = suc p.starts },
    )
unfolding start write
start_tried d p r e = rw (r, e) refl

read_tried :
    (d : Disk) (p : Probation)
    → read d ≡ some p
    → read (record d { probation_file = some (state (one_more p)) }) ≡ some (one_more p)
unfolding read
read_tried d p r = rw (read_installed d p r) refl

restart_tried :
    (fs : List Faults) (d : Disk) (p : Probation)
    → read d ≡ some p
    → leb (suc p.starts) probation_starts ≡ true
    → restarts (no_faults ∷ fs) d
      ≡ restarts fs (record d { probation_file = some (state (one_more p)) })
unfolding restarts
restart_tried fs d p r e = rw (start_tried d p r e) refl

abbrev pub three_starts : List Faults
three_starts = no_faults ∷ no_faults ∷ no_faults ∷ []

after_three :
    (d : Disk) (p : Probation)
    → read d ≡ some p
    → p.starts ≡ 0
    → (restarts three_starts d
        ≡ record d { probation_file = some (state (one_more (one_more (one_more p)))) })
      × (read (restarts three_starts d) ≡ some (one_more (one_more (one_more p))))
after_three d p r z =
    let d1 : Disk = record d { probation_file = some (state (one_more p)) } in
    let r1 : read d1 ≡ some (one_more p) = read_tried d p r in
    let d2 : Disk = record d { probation_file = some (state (one_more (one_more p))) } in
    let r2 : read d2 ≡ some (one_more (one_more p)) = read_tried d1 (one_more p) r1 in
    let d3 : Disk = record d { probation_file = some (state (one_more (one_more (one_more p)))) } in
    let r3 : read d3 ≡ some (one_more (one_more (one_more p))) =
      read_tried d2 (one_more (one_more p)) r2 in
    let e : restarts three_starts d ≡ d3 =
      restart_tried (no_faults ∷ no_faults ∷ []) d p r (rw z refl)
      ∙ restart_tried (no_faults ∷ []) d1 (one_more p) r1 (rw z refl)
      ∙ restart_tried [] d2 (one_more (one_more p)) r2 (rw z refl)
      ∙ (unfold restarts in refl) in
    (e, rw e r3)

move_back_free :
    (d : Disk) (bad good : Binary)
    → d.exe_file ≡ some bad
    → d.old_file ≡ some good
    → ((move_back no_faults d).1 ≡ none)
      × ((move_back no_faults d).0.exe_file ≡ some good)
      × ((move_back no_faults d).0.old_file ≡ some bad)
      × ((move_back no_faults d).0.refused_file ≡ d.refused_file)
unfolding move_back rename
move_back_free d bad good hb hg = ground arith

given_up_free :
    (q : Probation) (d : Disk) (bad good : Binary)
    → d.exe_file ≡ some bad
    → d.old_file ≡ some good
    → smoke_test (some good) q.previous ≡ true
    → CrashEnds bad good q.previous (given_up no_faults q (roll_back no_faults q d))
      × ((given_up no_faults q (roll_back no_faults q d)).0.refused_file
          ≡ (refuse no_faults q.installed d).refused_file)
unfolding roll_back read
given_up_free q d bad good hb hg hs =
    rw (hg, hs)
      (ground (
        arith,
        files-refuse no_faults q.installed d,
        move_back_free (refuse no_faults q.installed d) bad good,
      ))

-- The moment attempts run out on a disk that refuses nothing.
start_given_up :
    (d : Disk) (p : Probation) (bad good : Binary)
    → read d ≡ some p
    → leb (suc p.starts) probation_starts ≡ false
    → d.exe_file ≡ some bad
    → d.old_file ≡ some good
    → smoke_test (some good) p.previous ≡ true
    → CrashEnds bad good p.previous (start no_faults d)
      × ((start no_faults d).0.refused_file ≡ (refuse no_faults p.installed d).refused_file)
unfolding start
start_given_up d p bad good r e hb hg hs =
    rw (r, e) (given_up_free (one_more p) d bad good hb hg hs)

-- The list of refused versions depends on the file alone.
refuses-refuse_file :
    (d d' : Disk) (v : Text)
    → d'.refused_file ≡ (refuse no_faults v d).refused_file
    → refuses d' v ≡ refuses (refuse no_faults v d) v
unfolding refuses
refuses-refuse_file d d' v e = rw e refl

-- On a disk that refuses nothing, a version just installed that is started three times without
-- being settled is given up on at the fourth: the previous binary, which still runs, is in place
-- again and the failed one beside it, nothing is on probation any more, and the failed version is
-- refused. The version is one that the list of refused ones reads back as it was written, and the
-- list had at most ten entries.
pub crash_loop_recovers :
    (d : Disk) (p : Probation) (bad good : Binary)
    → read d ≡ some p
    → p.starts ≡ 0
    → d.exe_file ≡ some bad
    → d.old_file ≡ some good
    → smoke_test (some good) p.previous ≡ true
    → IsClean p.installed
    → length (refused_lines d.refused_file) ≤ max_refused
    → CrashEnds bad good p.previous (start no_faults (restarts three_starts d))
      × (refuses (start no_faults (restarts three_starts d)).0 p.installed ≡ true)
crash_loop_recovers d p bad good r z hb hg hs hc hl =
    let (e, r3) = after_three d p r z in
    let d3 : Disk = record d { probation_file = some (state (one_more (one_more (one_more p)))) } in
    let end =
      start_given_up d3 (one_more (one_more (one_more p))) bad good (rw (← e) r3) (rw z refl) hb hg
        hs in
    rw e (
      end.0,
      refuses-refuse_file d3 (start no_faults d3).0 p.installed end.1
          ∙ (refuse-refuses no_faults p.installed d3 hc refl hl).0,
    )
