-- ===== src/Tests/Settings.antt =====
-- The forms and the numbers of the status page at concrete inputs.
use sion_backup.Prelude.{◌*◌, ◌≡◌, refl, arith, true, false, Bool, some, none, false, List, [], ◌∷◌}
use sion_backup.Prelude.Text.{Text, codes, text_eq}
use sion_backup.Prelude.Time.{day, sub_time}
use sion_backup.Survey.{Choice}
use sion_backup.Survey.Folders.{Trouble}
use sion_backup.StatusPage.{apply_setup, SetupForm, confirms, save_setup, split_times, times_from}
use sion_backup.StatusPage.Saving.{SetupEnds, save_setup-SetupEnds}
use sion_backup.StatusPage.Words.{Fits, unit_of, unit_from, unit_of-Fits}
use sion_backup.Plan.Record.{Plan, confirmed}
use sion_backup.Restic.{backup}
use sion_backup.Backup.Execute.{execute, verify}
use sion_backup.Backup.Execute.Verdict.{all_targets}
use sion_backup.StatusPage.Verdict.{verdict_for, backed_up, stale}
use sion_backup.StatusPage.Green.{green_means_backed_up}
use sion_backup.Tests.Backup.{quiet, home, begun}
use sion_backup.Tests.Business.{works, seeded, plan}

abbrev junk : List Text
junk = codes "*.tmp" ∷ []

abbrev own : List Text
own = codes "*.iso" ∷ []

two_times : split_times (codes "13:00, 18:00") ≡ codes "13:00" ∷ codes "18:00" ∷ []
unfolding split_times times_from
two_times = refl

abbrev choices : List Choice
choices = []

abbrev all_fine : List Text → List Trouble
all_fine ts = []

abbrev form : SetupForm
form = record {
  action = codes "confirm";
  style = codes "custom";
  targets = codes "/home";
  junk = codes "on";
  skip_on_metered = [];
  skip_larger_than_gb = codes "4";
  schedule = codes "hourly";
  daily_time = [];
  times = [];
}

abbrev starts : Bool → Bool
starts w = true

save_setup-SetupEnds_example :
    SetupEnds starts
      (λ p. apply_setup choices all_fine junk p form)
      (3 * day)
      (confirms form)
      seeded
      false
      (save_setup choices all_fine junk starts works works form (3 * day) seeded false)
save_setup-SetupEnds_example =
    save_setup-SetupEnds choices all_fine junk starts works works form (3 * day) seeded false
      (omega arith)

megabytes : unit_of 5000000 ≡ some (1048576, 1)
unfolding unit_of unit_from
megabytes = refl

unit_of-Fits_example : Fits 5000000 5 (unit_of 5000000)
unit_of-Fits_example = unit_of-Fits 5000000 (omega arith) (omega arith)

abbrev agreed : Plan
agreed = record plan { confirmed_at = day }

shows_green :
    (verdict_for agreed (some (execute quiet home (codes "/v") begun)) false day).headline
    ≡ backed_up
unfolding verdict_for execute confirmed backup verify text_eq sub_time
shows_green = refl

green_means_backed_up_example :
    ((backup quiet.windows quiet.process (all_targets home (codes "/v"))).1 ≡ none)
    × (quiet.restored ≡ some quiet.nonce)
    × (quiet.stop ≡ none)
    × (stale (execute quiet home (codes "/v") begun) day ≡ false)
    × (confirmed agreed ≡ true)
    × (agreed.paused ≡ false)
green_means_backed_up_example =
    green_means_backed_up quiet home (codes "/v") begun agreed day refl refl shows_green
