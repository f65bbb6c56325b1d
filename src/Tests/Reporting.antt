-- ===== src/Tests/Reporting.antt =====
-- The run history, Run and a round of Flush at concrete inputs.
use sion_backup.Prelude.{◌*◌, Bool, true, false, List, [], ◌∷◌, pos}
use sion_backup.Prelude.Text.{codes}
use sion_backup.Prelude.Time.{second}
use sion_backup.Backup.Run.{Run}
use sion_backup.Backup.Store.{History, opened, closed_by}
use sion_backup.Backup.Store.Kept.{Call, create_call, finish_call, mark_call, prune_call}
use sion_backup.Backup.Runner.{Runner, Faults, Request}
use sion_backup.Fleet.{Event, Reply, landed, unreachable}
use sion_backup.Tests.Backup.{begun, home}

abbrev done_run : Run
done_run = record begun { id = 1; finished_at = 9 * second }

abbrev second_run : Run
second_run = record begun { id = 2; finished_at = 12 * second }

abbrev none_yet : History
none_yet = record { rows = []; next_id = 1 }

abbrev two_runs : History
two_runs = record {
  rows = closed_by second_run (opened 2 begun) ∷ closed_by done_run (opened 1 begun) ∷ [];
  next_id = 3;
}

abbrev calls : List Call
calls =
    create_call false begun
    ∷ finish_call false done_run
    ∷ mark_call false 1 (20 * second)
    ∷ create_call false begun
    ∷ prune_call false (pos 1)
    ∷ []

abbrev pub works : Faults
works = record { create = false; finish = false }

abbrev asked : Request
asked = record {
  node_id = codes "ana";
  run_uuid = codes "u";
  seeding = false;
  repository_url = codes "s3:b";
  options = home;
}

abbrev pub idle : Runner
idle = record { running = false; history = two_runs }

-- A server that answers the first event and then is gone.
abbrev once_up : Bool → Event → Bool × Reply
once_up true e = (false, landed)
once_up false e = (false, unreachable)
