-- ===== src/Tests/Polling.antt =====
-- cmd/sion-backup/rotate.go at concrete inputs: an answer, then a server that cannot be reached.
use sion_backup.Prelude.{◌*◌, ◌≡◌, refl, true, none, some, List, [], ◌∷◌}
use sion_backup.Prelude.Text.{Text, codes}
use sion_backup.Prelude.Result.{ok, err}
use sion_backup.Prelude.Time.{day}
use sion_backup.Server.{State, ServerError, serves, is_route}
use sion_backup.Daemon.Polling.{Round, poll_all, latest, facts, SameRest, poll_all-latest}
use sion_backup.Tests.Business.{works, seeded}

abbrev pub said : State
said = record {
  node_id = codes "ana";
  repository_url = codes "s3:b";
  repository_created_at = day;
  routes = some (codes "POST /rotation" ∷ []);
  owner_name = [];
  owner_email = [];
  repository_state = codes "active";
  repository_adopted = true;
  offer = none;
  card = record { state = codes "issued"; issued_at = day };
}

offers_rotation : serves said (codes "POST") (codes "/rotation") ≡ true
unfolding serves is_route
offers_rotation = unfold sion_backup.Prelude.Text.text_eq in refl

abbrev sentence : ServerError → Text
sentence e = codes "no network"

abbrev rounds : List Round
rounds =
    record { faults = works; available = true; answer = ok said; now = 2 * day }
    ∷ record { faults = works; available = true; answer = err (codes "dial"); now = 3 * day }
    ∷ []

poll_all-latest_example :
    (facts (poll_all sentence rounds seeded).machine_state
      ≡ latest rounds (facts seeded.machine_state))
    × SameRest seeded (poll_all sentence rounds seeded)
poll_all-latest_example = poll_all-latest sentence rounds seeded
