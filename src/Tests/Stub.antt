-- ===== src/Tests/Stub.antt =====
-- eumaeusstub/rotation.go at concrete inputs: a rotation from the offer to the old bucket's retirement.
use sion_backup.Prelude.{◌⊎◌, ◌≤◌, ◌≡◌, refl, true, false, some, List, [], ◌∷◌, get_elem?}
use sion_backup.Prelude.Text.{codes, text_eq, trim_right, trim_space}
use sion_backup.Prelude.Time.{is_zero}
use sion_backup.Restic.Ops.Creating.{HasInit, logged}
use sion_backup.Daemon.Opening.{open_repository}
use sion_backup.Stub.Creating.{permits, no_second_creation}
use sion_backup.Stub.{cutting_over, previous_to, modify}
use sion_backup.Stub.Calls.{credentials, old_bucket, lets_go, step}
use sion_backup.Tests.Repository.{emptied, bucket}
use sion_backup.Stub.{
  Repo, Stub, active, current, current_from, on_offer, offered_from, same_repository, expect_empty,
}
use sion_backup.Stub.Calls.{cutover, moved_to, admin_offer, Call, cuts_over, reports, offers, steps}
use sion_backup.Stub.Rows.{rank}
use sion_backup.Stub.Evolving.{steps-RowMovesOn}
use sion_backup.Stub.Releasing.{IsAsked, EarnedIn, steps-Asked}
use sion_backup.Stub.Retrying.{cutover_retry}

abbrev old_row : Repo
old_row = record {
  url = codes "s3:o";
  state = active;
  bucket = codes "o";
  region = codes "test";
  created_at = 1;
  adopted = false;
  offered_at = 0;
  card_issued_at = 1;
  release_asked_at = 0;
  snapshot = true;
  verified = false;
}

abbrev table : Stub
table = record { node = codes "ana"; repos = old_row ∷ []; rotation_asked = false }

abbrev lands : Call
lands = reports (record {
  phase = codes "finished";
  snapshot_id = codes "1f";
  repository_url = codes "s3:n";
  verified = true;
})

abbrev whole : List Call
whole = offers (codes "s3:n") false 2 ∷ cuts_over (codes "s3:n") ∷ lands ∷ []

steps-RowMovesOn_example :
    (t : Repo) × (get_elem? (steps whole table).repos 0 ≡ some t)
    × (rank active ≤ rank t.state)
    × (is_zero 0 ≡ false → t.release_asked_at ≡ 0)
    × (true ≡ true → expect_empty t ≡ false)
steps-RowMovesOn_example = steps-RowMovesOn whole table 0 old_row refl

abbrev offering : Stub
offering = (admin_offer (codes "s3:n") false 2 table).0

moves_to_new : (cutover (codes "s3:n") offering).1 ≡ moved_to (codes "s3:n")
unfolding cutover current current_from on_offer offered_from same_repository text_eq
moves_to_new = unfold admin_offer in unfold trim_right in unfold trim_space in refl

cutover_retry_example :
    cutover (codes "s3:n") (cutover (codes "s3:n") offering).0
    ≡ ((cutover (codes "s3:n") offering).0, moved_to (codes "s3:n"))
cutover_retry_example =
    cutover_retry (codes "s3:n") (codes "s3:n") offering (unfold admin_offer in (refl, (refl, tt)))
      moves_to_new

abbrev new_row : Repo
new_row = record old_row {
  url = codes "s3:n";
  state = cutting_over;
  bucket = codes "n";
  card_issued_at = 0;
  verified = true;
}

abbrev moving : Stub
moving = record table { repos = old_row ∷ new_row ∷ [] }

abbrev release : List Call
release = lets_go (codes "s3:n") 5 ∷ []

new_is_current : current (steps release moving).repos ≡ some 1
unfolding steps step old_bucket current current_from same_repository text_eq trim_right trim_space
    previous_to modify
new_is_current = refl

no_second_creation_example :
    ¬ HasInit
      (open_repository
        (logged emptied)
        (permits (credentials (steps release moving)))
        bucket
        ([], false)).0.0
no_second_creation_example =
    no_second_creation emptied false bucket release moving 1 new_row refl refl new_is_current

first-IsAsked : IsAsked (steps release moving).repos 0
unfolding steps step old_bucket current current_from same_repository text_eq trim_right trim_space
    previous_to modify
first-IsAsked = (record old_row { release_asked_at = 5 }, refl, refl)

steps-Asked_example : IsAsked moving.repos 0 ⊎ EarnedIn release moving 0
steps-Asked_example = steps-Asked release moving 0 first-IsAsked
