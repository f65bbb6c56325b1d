-- ===== src/Disclosure/Reading.antt =====
-- business/domain/disclosure/disclosurebus/disclosurebus.go: Read and Glance.
use sion_backup.Prelude.{
  ℕ, Bool, true, false, Option, none, some, List, [], ◌∷◌, if◌then◌else◌, length,
}
use sion_backup.Prelude.Result.{Result, ok, err}
use sion_backup.Prelude.Time.{Time}
use sion_backup.Disclosure.{Log, Keep, Report, witness_of, check, report}
use sion_backup.Disclosure.Store.{remember}

pub data ReadError : Type 0 where
  not_enrolled source_failed kept_failed remember_failed : ReadError

-- The calls of the store that fail.
pub record Faults : Type 0 where
  pub kept : Bool
  pub remember : Bool

abbrev pub read_log : Faults → Time → Option Log → List Keep → List Keep × Result ReadError Report
read_log f now none rows = (rows, err source_failed)
read_log f now (some l) rows =
    if f.kept
    then (rows, err kept_failed)
    else if f.remember
    then (rows, err remember_failed)
    else (remember (witness_of l) now rows, ok (report l (length rows) (check l rows)))

-- Read: `available` says there is a source and a store; the answer is none where List fails.
unfoldable pub read :
    Bool → Faults → Time → Option Log → List Keep → List Keep × Result ReadError Report
read available f now answer rows =
    if available then read_log f now answer rows else (rows, err not_enrolled)

pub record Glance : Type 0 where
  pub known : Bool
  pub count : ℕ
  pub at : Time

abbrev pub newest : List Keep → Glance
newest [] = record { known = false; count = 0; at = 0 }
newest (k ∷ []) = record { known = true; count = k.witness.count; at = k.witness.at }
newest (_ ∷ k ∷ ks) = newest (k ∷ ks)

unfoldable pub glance : Bool → Faults → List Keep → Result ReadError Glance
glance available f rows =
    if available then (if f.kept then err kept_failed else ok (newest rows)) else ok (newest [])
