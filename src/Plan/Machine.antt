-- ===== src/Plan/Machine.antt =====
-- business/domain/plan/planbus/rotation.go: what the server last said about this machine.
use sion_backup.Prelude.{Bool, not, ◌&&◌, ◌||◌, Option}
use sion_backup.Prelude.Text.{Text, codes, text_eq}
use sion_backup.Prelude.Time.{Time, is_zero}
use sion_backup.Plan.Rotation.{Bucket}

pub record Offered : Type 0 where
  pub url : Text
  pub provider : Text
  pub region : Text
  pub bucket : Text
  pub offered_at : Time
  pub adopted : Bool

pub record Card : Type 0 where
  pub state : Text
  pub issued_at : Time

pub record MachineState : Type 0 where
  pub asked_at : Time
  pub node_id : Text
  pub owner_name : Text
  pub owner_email : Text
  pub bucket : Bucket
  pub offer : Option Offered
  pub card : Card
  pub failure : Text

unfoldable pub cutting_over : Bucket → Bool
cutting_over b = text_eq b.state (codes "cutting-over")

unfoldable pub owed : Card → Bool
owed c = text_eq c.state (codes "never") || text_eq c.state (codes "superseded")

unfoldable pub destroy_the_old : Card → Bool
destroy_the_old c = text_eq c.state (codes "superseded")

unfoldable pub known : MachineState → Bool
known s = not (is_zero s.asked_at)

unfoldable pub describes : MachineState → Text → Bool
unfolding known
describes s url = known s && text_eq s.bucket.url url
