-- ===== src/Disclosure.antt =====
-- business/domain/disclosure/disclosurebus/disclosurebus.go: the log of every occasion the password
-- left the server, and the check of it against the heads this machine has kept. Counts and sequence
-- numbers are not negative.
pub mod Store
pub mod Reading
pub mod Honest
pub mod Tamper
pub mod Agreed
pub mod Heads
use sion_backup.Prelude.{
  ℕ, suc, Bool, true, false, Option, none, some, List, [], ◌∷◌, ltb, ◌==◌, not, ◌&&◌, ◌||◌,
  if◌then◌else◌, length,
}
use sion_backup.Prelude.Text.{Text, text_eq, is_empty}
use sion_backup.Prelude.Time.{Time}

-- The kinds this build knows, and any other.
pub data Kind : Type 0 where
  minted adopted enrolled fetched revealed exported : Kind
  keys_granted keys_retired keys_foreign : Kind
  unheard_of : Text → Kind

unfoldable pub about_bucket : Kind → Bool
about_bucket keys_granted = true
about_bucket keys_retired = true
about_bucket keys_foreign = true
about_bucket _ = false

unfoldable pub known : Kind → Bool
known (unheard_of k) = false
known _ = true

abbrev pub is_foreign : Kind → Bool
is_foreign keys_foreign = true
is_foreign _ = false

pub record Entry : Type 0 where
  pub seq : ℕ
  pub at : Time
  pub kind : Kind
  pub actor : Text
  pub from_ip : Text
  pub credentials_version : ℕ
  pub by_machine : Bool
  pub describe : Text
  pub detail : Text
  pub prev_hash : Text
  pub hash : Text

pub record Witness : Type 0 where
  pub count : ℕ
  pub hash : Text
  pub at : Time

unfoldable pub is_zero_witness : Witness → Bool
is_zero_witness w = (w.count == 0) && is_empty w.hash

pub record Keep : Type 0 where
  pub witness : Witness
  pub seen : Time

abbrev pub no_keep : Keep
no_keep = record { witness = record { count = 0; hash = []; at = 0 }; seen = 0 }

-- The entries stand with the newest first.
pub record Log : Type 0 where
  pub count : ℕ
  pub head : Text
  pub entries : List Entry
  pub chained_since : Time

abbrev pub newest_at : List Entry → Time
newest_at [] = 0
newest_at (e ∷ es) = e.at

unfoldable pub witness_of : Log → Witness
witness_of l = record { count = l.count; hash = l.head; at = newest_at l.entries }

pub data Verdict : Type 0 where
  first_look agrees unproven shrunk rewritten broken : Verdict

unfoldable pub wrong : Verdict → Bool
wrong shrunk = true
wrong rewritten = true
wrong broken = true
wrong _ = false

-- The entry at a position of the chain.
unfoldable pub entry_at : List Entry → ℕ → Option Entry
entry_at [] seq = none
entry_at (e ∷ es) seq = let rest = entry_at es seq in if e.seq == seq then some e else rest

-- Entries that claim to be adjacent and do not link.
unfoldable pub unlinked : List Entry → Bool
unlinked [] = false
unlinked (a ∷ []) = false
unlinked (a ∷ b ∷ es) =
    let rest = unlinked (b ∷ es) in
    if (a.seq == suc b.seq) && not (text_eq a.prev_hash b.hash) then true else rest

-- linked, true where it answers VerdictBroken.
abbrev pub is_broken : ℕ → Text → List Entry → Bool
is_broken count head [] = not (count == 0) || not (is_empty head)
is_broken count head (e ∷ es) =
    if (e.seq == count) && not (text_eq e.hash head) then true else unlinked (e ∷ es)

abbrev pub or_first : Option Keep → Keep → Option Keep
or_first (some t) k = some t
or_first none k = some k

abbrev pub check_found :
    Option Entry → Keep → (Option Keep → Verdict × Keep) → Option Keep → Verdict × Keep
check_found none k rest tested = rest tested
check_found (some e) k rest tested =
    if text_eq e.hash k.witness.hash then rest (or_first tested k) else (rewritten, no_keep)

-- The loop over the kept heads; `untested` is the verdict where none could be tested.
unfoldable pub check_kept : Log → Verdict → List Keep → Option Keep → Verdict × Keep
check_kept l untested [] (some k) = (agrees, k)
check_kept l untested [] none = (untested, no_keep)
check_kept l untested (k ∷ ks) tested =
    if is_zero_witness k.witness
    then check_kept l untested ks tested
    else if ltb l.count k.witness.count
    then (shrunk, no_keep)
    else check_found (entry_at l.entries k.witness.count) k (check_kept l untested ks) tested

abbrev pub untested_verdict : List Keep → Verdict
untested_verdict [] = first_look
untested_verdict (_ ∷ _) = unproven

unfoldable pub check : Log → List Keep → Verdict × Keep
check l kept =
    if is_broken l.count l.head l.entries
    then (broken, no_keep)
    else check_kept l (untested_verdict kept) kept none

pub record Columns : Type 0 where
  pub people : List Entry
  pub machines : List Entry
  pub keys : List Entry
  pub foreign : List Entry

abbrev pub filed : Entry → Columns → Columns
filed e c =
    if about_bucket e.kind
    then record c {
      keys = e ∷ c.keys;
      foreign = if is_foreign e.kind then e ∷ c.foreign else c.foreign;
    }
    else if e.by_machine
    then record c { machines = e ∷ c.machines }
    else record c { people = e ∷ c.people }

unfoldable pub columns : List Entry → Columns
columns [] = record { people = []; machines = []; keys = []; foreign = [] }
columns (e ∷ es) = filed e (columns es)

pub record Report : Type 0 where
  pub log : Log
  pub columns : Columns
  pub people_count : ℕ
  pub machine_count : ℕ
  pub key_count : ℕ
  pub capped : Bool
  pub verdict : Verdict
  pub against : Keep
  pub kept : ℕ

-- split, with what Read adds to it.
unfoldable pub report : Log → ℕ → Verdict × Keep → Report
report l kept (v, a) =
    let c = columns l.entries in
    record {
      log = l;
      columns = c;
      people_count = length c.people;
      machine_count = length c.machines;
      key_count = length c.keys;
      capped = ltb (length l.entries) l.count;
      verdict = v;
      against = a;
      kept = kept;
    }
