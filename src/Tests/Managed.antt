-- ===== src/Tests/Managed.antt =====
-- foundation/restic/manage.go at concrete inputs: an older restic is replaced, and one that cannot be
-- moved in is put back.
use sion_backup.Prelude.{◌≡◌, refl, true, false, none, some, []}
use sion_backup.Prelude.Text.{codes, trim_space, split, text_eq}
use sion_backup.Prelude.Result.{ok}
use sion_backup.SelfUpdate.Disk.{Binary}
use sion_backup.Restic.Managed.{
  Files, Faults, Pin, downloaded, version_number, words, words_from, is_version, all_digits,
  smoke_test, install, ensure_pinned, replaced,
}
use sion_backup.Restic.Managed.Pinned.{EnsureEnds, ensure_pinned-EnsureEnds}

abbrev pin : Pin
pin = record { version = codes "0.19.1"; sha256 = codes "c0ffee" }

abbrev older : Binary
older = record { runs = true; output = codes "restic 0.16.2 compiled with go1.21\n"; sum = [] }

abbrev wanted : Binary
wanted = record { runs = true; output = codes "restic 0.19.1 compiled with go1.25\n"; sum = [] }

abbrev files : Files
files = record { bin = some older; old = none }

abbrev no_faults : Faults
no_faults = record {
  make = false;
  remove_old = false;
  aside = false;
  into_place = false;
  back = false;
}

abbrev stuck : Faults
stuck = record no_faults { into_place = true }

number : version_number (codes "restic v0.16.2 compiled") ≡ codes "0.16.2"
unfolding version_number words words_from is_version all_digits trim_space split text_eq
number = refl

replaces :
    ensure_pinned true no_faults pin
      (downloaded (codes "c0ffee") (some wanted))
      (some older.output)
      (some wanted.output)
      files
    ≡ (record { bin = some wanted; old = none }, ok (replaced (codes "0.16.2") (codes "0.19.1")))
unfolding ensure_pinned install smoke_test version_number words words_from is_version all_digits
    trim_space split text_eq
replaces = refl

ensure_pinned-EnsureEnds_example :
    EnsureEnds pin (downloaded (codes "c0ffee") (some wanted)) (some older.output) none files (
      ensure_pinned true stuck pin
        (downloaded (codes "c0ffee") (some wanted))
        (some older.output)
        none
        files)
ensure_pinned-EnsureEnds_example =
    ensure_pinned-EnsureEnds true stuck pin (downloaded (codes "c0ffee") (some wanted))
      (some older.output) none files
