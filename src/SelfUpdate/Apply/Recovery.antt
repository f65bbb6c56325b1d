-- ===== src/SelfUpdate/Apply/Recovery.antt =====
-- foundation/selfupdate: an update that does not stay up, from Apply to the next Apply.
use sion_backup.Prelude.{List, [], ◌∷◌}
use sion_backup.Prelude.Text.{Text}
use sion_backup.SelfUpdate.Disk.{Disk, Faults, Probation}
use sion_backup.SelfUpdate.Probation.{start}
use sion_backup.SelfUpdate.Apply.{Release, offered, Fetch, installed, apply}

abbrev on_trial : Text → Release → Probation
on_trial current r = record { installed = r.version; previous = current; starts = 0 }

-- Later lives of the program: each starts and then offers the same release to Apply, with what the disk
-- refuses to the one and the other and what is downloaded.
abbrev pub lives : Text → Release → List (Faults × Faults × Fetch) → Disk → Disk
lives current r [] d = d
lives current r ((g, f, x) ∷ ls) d =
    lives current r ls (apply f current (offered r) x (start g d).0).0
