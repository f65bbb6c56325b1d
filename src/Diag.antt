-- ===== src/Diag.antt =====
-- business/domain/diag/diagbus/diagbus.go: the reports of a machine about its own failures, which wait in
-- a queue until the server takes them. Lengths are those of ASCII text.
pub mod Files
pub mod Order
pub mod Newest
pub mod Stamp
pub mod Stamped
use sion_backup.Prelude.{
  ℕ, zero, suc, ◌+◌, Bool, true, false, Option, none, some, List, [], ◌∷◌, ◌++◌, not, ◌&&◌, ◌||◌,
  ◌==◌, if◌then◌else◌, ltb, leb, length, take, drop,
}
use sion_backup.Prelude.Text.{Text, codes, is_empty, to_lower, trim_space}
use sion_backup.Prelude.Result.{Result, ok, err}
use sion_backup.Prelude.Time.{Time, is_zero}

pub data Kind : Type 0 where
  install_failed panicked update_failed update_rolled_back repository_damaged : Kind

pub record Report : Type 0 where
  pub kind : Kind
  pub occurred_at : Time
  pub agent : Text
  pub os : Text
  pub install_id : Text
  pub node_id : Text
  pub step : Text
  pub prior_version : Text
  pub rollback_outcome : Text
  pub restored_version : Text
  pub detail : Text

pub record Queued : Type 0 where
  pub id : Text
  pub report : Report

-- diagbus.Queue over a state `Q`; a failed call names its error.
pub record Queue (Q : Type 0) : Type 0 where
  pub put : Report → Q → Q × Option Text
  pub list : Q → Q × Result Text (List Queued)
  pub remove : Text → Q → Q × Option Text

-- What Send of the sink comes to; `rejected` is an error that is ErrRejected.
pub data Sending : Type 0 where
  landed rejected : Sending
  failed : Text → Sending

abbrev pub max_detail : ℕ
max_detail = 16384

-- A letter under (?i): the Latin small letter long s and the Kelvin sign fold with s and k.
abbrev pub folded : ℕ → ℕ
folded c = if c == 0x17f then b's' else if c == 0x212a then b'k' else to_lower c

-- What is left after a prefix, compared under (?i).
unfoldable pub after_prefix : Text → Text → Option Text
after_prefix [] s = some s
after_prefix (p ∷ ps) [] = none
after_prefix (p ∷ ps) (c ∷ s) =
    let rest = after_prefix ps s in if folded c == folded p then rest else none

abbrev pub is_letter : ℕ → Bool
is_letter c = leb b'a' (folded c) && leb (folded c) b'z'

abbrev pub after_drive : Text → Option Text
after_drive [] = none
after_drive (c ∷ s) = if is_letter c then after_prefix (codes ":\\Users\\") s else none

abbrev pub or_else : Option Text → Option Text → Option Text
or_else none o = o
or_else (some t) o = some t

-- What is left after the first group of homePath.
unfoldable pub after_home : Text → Option Text
unfolding after_prefix
after_home s =
    or_else (after_prefix (codes "/home/") s)
      (or_else (after_prefix (codes "/Users/") s) (after_drive s))

abbrev pub ends_name : ℕ → Bool
ends_name c = c == b'/' || c == 92 || c == b' ' || c == 34 || c == 39

-- The characters of the second group, and the text after them.
unfoldable pub skip_name : Text → Text
skip_name [] = []
skip_name (c ∷ s) = let rest = skip_name s in if ends_name c then c ∷ s else rest

abbrev pub has_name : Text → Bool
has_name [] = false
has_name (c ∷ s) = not (ends_name c)

-- The text after a match of homePath, if there is one here.
unfoldable pub after_match : Text → Option Text
unfolding after_home skip_name
after_match s = elim (after_home s) [
  | none ↦ none
  | some t ↦ if has_name t then some (skip_name t) else none
]

-- ReplaceAllStringFunc with ~; each round takes at least one character, so a round for each is enough.
unfoldable pub replace_homes : ℕ → Text → Text
replace_homes zero s = s
replace_homes (suc rounds) [] = []
replace_homes (suc rounds) (c ∷ s) = elim (after_match (c ∷ s)) [
  | some t ↦ b'~' ∷ replace_homes rounds t
  | none ↦ c ∷ replace_homes rounds s
]

unfoldable pub scrub : Text → Text
unfolding replace_homes
scrub detail = trim_space (replace_homes (length detail) detail)

unfoldable pub truncated : Text → Text
truncated d = if ltb max_detail (length d) then take max_detail d ++ codes "\n[truncated]" else d

-- What Record makes of a report before it puts it in the queue; `now` is the clock, `os` the platform.
unfoldable pub stamped : Text → Text → Time → Report → Report
unfolding truncated
stamped agent os now r = record r {
  agent = agent;
  os = os;
  occurred_at = if is_zero r.occurred_at then now else r.occurred_at;
  detail = truncated (scrub r.detail);
}

abbrev pub count_listed : Result Text (List Queued) → ℕ
count_listed (ok ws) = length ws
count_listed (err e) = 0

module _ {Q : Type 0} (queue : Queue Q) where
  unfoldable pub record_report : Bool → Text → Text → Time → Report → Q → Q × Option Text
  record_report has_queue agent os now r q =
      if has_queue then queue.put (stamped agent os now r) q else (q, none)

  unfoldable pub waiting : Bool → Q → Q × ℕ
  waiting has_queue q =
      if has_queue then (let (q', r) = queue.list q in (q', count_listed r)) else (q, 0)

-- The queue, the server, how many were sent, and the error.
abbrev pub Flushed : Type 0 → Type 0 → Type 0
Flushed Q S = Q × S × ℕ × Option Text

module _ {Q S : Type 0} (queue : Queue Q) (send : Report → S → S × Sending) where
  abbrev pub removed_then : (ℕ → Q → Flushed Q S) → Bool → ℕ → S → Q × Option Text → Flushed Q S
  removed_then rest lands sent s (q, some e) = (q, s, sent, some e)
  removed_then rest lands sent s (q, none) = rest (if lands then suc sent else sent) q

  abbrev pub sent_then : (S → ℕ → Q → Flushed Q S) → Text → ℕ → Q → S × Sending → Flushed Q S
  sent_then rest id sent q (s, landed) = removed_then (rest s) true sent s (queue.remove id q)
  sent_then rest id sent q (s, rejected) = removed_then (rest s) false sent s (queue.remove id q)
  sent_then rest id sent q (s, failed e) = (q, s, sent, some e)

  unfoldable pub flush_from : List Queued → S → ℕ → Q → Flushed Q S
  flush_from [] s sent q = (q, s, sent, none)
  flush_from (w ∷ ws) s sent q = sent_then (flush_from ws) w.id sent q (send w.report s)

  abbrev pub flush_list : S → Q × Result Text (List Queued) → Flushed Q S
  flush_list s (q, err e) = (q, s, 0, some e)
  flush_list s (q, ok ws) = flush_from ws s 0 q

  -- `able`: there is a queue and a sink.
  unfoldable pub flush : Bool → S → Q → Flushed Q S
  unfolding flush_from
  flush able s q = if able then flush_list s (queue.list q) else (q, s, 0, none)

-- PanicReport; `said` and `stack` are the texts of the panic and of the stack.
unfoldable pub panic_report : Text → Text → Time → Text → Report
panic_report said stack now node_id = record {
  kind = panicked;
  occurred_at = now;
  agent = [];
  os = [];
  install_id = [];
  node_id = node_id;
  step = [];
  prior_version = [];
  rollback_outcome = [];
  restored_version = [];
  detail = codes "panic: " ++ said ++ codes "\n\n" ++ stack;
}
