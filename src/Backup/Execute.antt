-- ===== src/Backup/Execute.antt =====
-- business/domain/backup/backupbus/backupbus.go: execute, verify and cancelled. What the machine, the
-- process and the person do during the run is an argument, `World`.
pub mod Verdict
use sion_backup.Prelude.{
  ℕ, Bool, true, false, Option, none, some, List, [], ◌∷◌, ◌++◌, map, length, drop, if◌then◌else◌,
  ◌&&◌, ◌||◌,
}
use sion_backup.Prelude.Text.{Text, codes, trim_space, trim_left, has_prefix, text_eq, is_empty}
use sion_backup.Restic.{Failure, Summary, Process, Options, backup, incomplete, retryable}
use sion_backup.Backup.Run.{
  Run, Outcome, success, degraded, unverified, cancelled, Message, Unread, not_restored, different,
  nothing_said, lock_cleared, without_snapshot, scratch_unready, nonce_failed, lock_stuck, stopped,
  stopped_and_locked, files_unreadable, backup_failed, not_read_back, files_added,
}
use sion_backup.Backup.Run

-- clear_error and nonce_error: ClearScratch and writeNonce fail; nonce: the bytes that were written;
-- stop: the reason of a cancellation seen when restic returns; unlock_error: Unlock fails;
-- restored: the bytes of the restored verification file, if there is one.
pub record World : Type 0 where
  pub windows : Bool
  pub clear_error : Option Text
  pub nonce_error : Option Text
  pub nonce : Text
  pub process : Process
  pub stop : Option Text
  pub unlock_error : Option Text
  pub restored : Option Text

-- The rest of `msg` after the last `item` in it.
unfoldable pub after_last : Text → Text → Option Text
after_last item [] = none
after_last item (c ∷ s) = elim (after_last item s) [
  | some r ↦ some r
  | none ↦ if has_prefix (c ∷ s) item then some (drop (length item) (c ∷ s)) else none
]

abbrev pub is_colon_or_space : ℕ → Bool
is_colon_or_space c = has_prefix (c ∷ []) (b':' ∷ []) || has_prefix (c ∷ []) (b' ' ∷ [])

abbrev pub with_reason : Text → Text → Text
with_reason item reason = if is_empty reason then item else item ++ codes ": " ++ reason

abbrev pub named_line : Text → Text → Option Text → Text
named_line item msg (some rest) = with_reason item (trim_left is_colon_or_space (trim_space rest))
named_line item msg none = item ++ codes ": " ++ msg

abbrev pub line_of : Text → Text → Text
line_of item msg =
    if is_empty item
    then msg
    else if is_empty msg
    then item
    else named_line item msg (after_last item msg)

unfoldable pub unreadable_line : Text × Text → Text
unreadable_line (item, msg) = line_of (trim_space item) (trim_space msg)

-- What the summary of restic puts into the run.
abbrev pub with_summary : Summary → Run → Run
with_summary s r = record r {
  snapshot_id = s.snapshot_id;
  files_new = s.files_new;
  files_changed = s.files_changed;
  total_files_processed = s.total_files_processed;
  total_bytes_processed = s.total_bytes_processed;
  data_added = s.data_added;
  vss_fell_back = s.vss_fell_back;
  unreadable_files = r.unreadable_files ++ map unreadable_line s.errors;
}

-- verify: the restored file is there and holds the bytes that were written.
unfoldable pub verify : Text → Option Text → Option Unread
verify want none = some not_restored
verify want (some got) = if text_eq got want then none else some different

abbrev pub is_success : Outcome → Bool
is_success success = true
is_success _ = false

abbrev pub downgraded : Run → Run
downgraded r =
    if r.vss_fell_back && is_success r.outcome
    then record r { outcome = degraded; message = without_snapshot }
    else r

abbrev pub message_or_count : Message → Run → Message
message_or_count nothing_said r = files_added r.total_files_processed r.data_added
message_or_count m r = m

abbrev pub with_count : Run → Run
with_count r = record r { message = message_or_count r.message r }

abbrev pub checked : Option Unread → Run → Run
checked (some e) r = record r { outcome = unverified; message = not_read_back e }
checked none r = with_count (downgraded (record r { verified = true }))

abbrev pub unlock_message : Option Text → Message
unlock_message none = lock_cleared
unlock_message (some e) = lock_stuck e

-- A failed backup that did not come down to unreadable files.
abbrev pub not_backed_up : World → Failure → Run → Run
not_backed_up w e r =
    if retryable e
    then record r { message = unlock_message w.unlock_error }
    else record r { message = backup_failed e }

abbrev pub backed_up : World → Summary × Option Failure → Run → Run
backed_up w (s, none) r =
    checked (verify w.nonce w.restored) (record (with_summary s r) { outcome = success })
backed_up w (s, some e) r =
    if incomplete e
    then checked (verify w.nonce w.restored) (record (with_summary s r) {
      outcome = Run.incomplete;
      message = files_unreadable s.error_count;
    })
    else not_backed_up w e (with_summary s r)

abbrev pub stop_message : Option Text → Text → Message
stop_message none reason = stopped reason
stop_message (some e) reason = stopped_and_locked reason

abbrev pub unless_stopped : Option Text → World → Summary × Option Failure → Run → Run
unless_stopped (some reason) w b r = record r {
  outcome = cancelled;
  message = stop_message w.unlock_error reason;
}
unless_stopped none w b r = backed_up w b r

abbrev pub prepared : Option Text → Option Text → World → Options → Text → Run → Run
prepared (some e) n w o dir r = record r { message = scratch_unready e }
prepared none (some e) w o dir r = record r { message = nonce_failed e }
prepared none none w o dir r =
    unless_stopped w.stop w
      (backup w.windows w.process (record o { targets = o.targets ++ dir ∷ [] })) r

-- The directory of the verification file is backed up with the targets.
unfoldable pub execute : World → Options → Text → Run → Run
execute w o dir r = prepared w.clear_error w.nonce_error w o dir r
