-- ===== src/Fleet.antt =====
-- business/domain/fleet/fleetbus/fleetbus.go: Flush, and the round of the daemon
-- (cmd/sion-backup/daemon.go, flush) that applies it to the run history. The server is a state with the function
-- that answers an event.
pub mod Telling
use sion_backup.Prelude.{
  ℕ, suc, Bool, true, false, Option, none, some, List, [], ◌∷◌, map, length, pos,
}
use sion_backup.Prelude.Text.{Text}
use sion_backup.Prelude.Time.{Time}
use sion_backup.Backup.Run.{Run, Outcome, Message, reported}
use sion_backup.Backup.Store.{History, unreported, mark_reported}

-- How Report ends: nil, ErrRejected, or another error.
pub data Reply : Type 0 where
  landed rejected unreachable : Reply

pub data FlushError : Type 0 where
  not_reported not_marked : FlushError

-- The states of the server and of the store, the number sent and the error.
pub record Flushed (S M : Type 0) : Type 0 where
  pub server : S
  pub store : M
  pub sent : ℕ
  pub error : Option FlushError

module _ {E S M : Type 0} (send : S → E → S × Reply) (mark : M → ℕ → M × Bool) where
  abbrev pub marked : (ℕ → S → M → Flushed S M) → ℕ → ℕ → S → M × Bool → Flushed S M
  marked rest now_sent sent s (m, true) = rest now_sent s m
  marked rest now_sent sent s (m, false) = record {
    server = s;
    store = m;
    sent = sent;
    error = some not_marked;
  }

  abbrev pub answered : (ℕ → S → M → Flushed S M) → ℕ → ℕ → M → S × Reply → Flushed S M
  answered rest id sent m (s, landed) = marked rest (suc sent) sent s (mark m id)
  answered rest id sent m (s, rejected) = marked rest sent sent s (mark m id)
  answered rest id sent m (s, unreachable) = record {
    server = s;
    store = m;
    sent = sent;
    error = some not_reported;
  }

  -- The loop, from what was sent before.
  unfoldable pub flush_from : List (ℕ × E) → ℕ → S → M → Flushed S M
  flush_from [] sent s m = record { server = s; store = m; sent = sent; error = none }
  flush_from ((id, e) ∷ ps) sent s m = answered (flush_from ps) id sent m (send s e)

  unfoldable pub flush : List (ℕ × E) → S → M → Flushed S M
  unfolding flush_from
  flush ps s m = flush_from ps 0 s m

-- Event, as eventFor fills it in; what is the same for every run of a machine is left out.
pub record Event : Type 0 where
  pub node_id : Text
  pub run_uuid : Text
  pub repository_url : Text
  pub seeding : Bool
  pub started_at : Time
  pub finished_at : Time
  pub outcome : Outcome
  pub message : Message
  pub snapshot_id : Text
  pub files_processed : ℕ
  pub bytes_processed : ℕ
  pub data_added : ℕ
  pub unreadable_files : ℕ
  pub verified : Bool

abbrev pub event_for : Run → Event
event_for r = record {
  node_id = r.node_id;
  run_uuid = r.run_uuid;
  repository_url = r.repository;
  seeding = r.seeding;
  started_at = r.started_at;
  finished_at = r.finished_at;
  outcome = reported r.outcome;
  message = r.message;
  snapshot_id = r.snapshot_id;
  files_processed = r.total_files_processed;
  bytes_processed = r.total_bytes_processed;
  data_added = r.data_added;
  unreadable_files = length r.unreadable_files;
  verified = r.verified;
}

abbrev pub pending : Run → ℕ × Event
pending r = (r.id, event_for r)

-- One round of the daemon; `fails` says for which runs MarkReported fails.
unfoldable pub flush_runs :
    {S : Type 0} → (S → Event → S × Reply) → (ℕ → Bool) → Time → S → History → Flushed S History
flush_runs send fails now s h =
    flush send (λ m id. mark_reported (fails id) id now m) (map pending (unreported (pos 50) h)) s h
