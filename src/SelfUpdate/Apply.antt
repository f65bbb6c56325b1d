-- ===== src/SelfUpdate/Apply.antt =====
-- foundation/selfupdate/selfupdate.go: Apply, Writable and download. What the source answers and what
-- the download delivers are arguments.
pub mod Ends
pub mod Recovery
use sion_backup.Prelude.{Bool, true, false, Option, none, some, if◌then◌else◌, ◌||◌}
use sion_backup.Prelude.Text.{Text, is_empty, equal_fold}
use sion_backup.SelfUpdate.Version.{newer}
use sion_backup.SelfUpdate.Disk.{Disk, Faults, Binary, staged, put, remove, smoke_test}
use sion_backup.SelfUpdate.Swap.{MoveError, swap}
use sion_backup.SelfUpdate.Refused.{refuses}
use sion_backup.SelfUpdate.Probation.{begin}

pub record Release : Type 0 where
  pub version : Text
  pub url : Text
  pub sha256 : Text

-- Source.Latest, or no source at all.
pub data Answer : Type 0 where
  no_source source_failed : Answer
  offered : Release → Answer

-- What a download delivers: nothing, a file that was broken off, or the whole file.
pub data Fetch : Type 0 where
  not_fetched : Fetch
  broken_off fetched : Binary → Fetch

pub data ApplyError : Type 0 where
  unconfigured source_error no_release not_writable probe_left download_failed : ApplyError
  wrong_hash does_not_run : ApplyError
  not_swapped : MoveError → ApplyError

pub data Applied : Type 0 where
  installed : Release → Applied
  nothing_to_do : Applied
  failed : ApplyError → Applied

-- Writable: the probe beside the binary is created and removed.
abbrev pub writable : Faults → Option ApplyError
writable f = if f.probe then some not_writable else if f.remove_probe then some probe_left else none

-- download: the staged file, and whether it is whole and has the hash of the release.
abbrev pub download : Fetch → Release → Disk → Disk × Option ApplyError
download not_fetched r d = (d, some download_failed)
download (broken_off b) r d = (put staged (some b) d, some download_failed)
download (fetched b) r d =
    (put staged (some b) d, if equal_fold b.sum r.sha256 then none else some wrong_hash)

abbrev pub apply_swapped : Faults → Text → Release → Disk × Option MoveError → Disk × Applied
apply_swapped f current r (d, none) = (remove f staged (begin f r.version current d), installed r)
apply_swapped f current r (d, some e) = (remove f staged d, failed (not_swapped e))

abbrev pub apply_downloaded : Faults → Text → Release → Disk × Option ApplyError → Disk × Applied
apply_downloaded f current r (d, some e) = (remove f staged d, failed e)
apply_downloaded f current r (d, none) =
    if smoke_test d.staged_file r.version
    then apply_swapped f current r (swap f d)
    else (remove f staged d, failed does_not_run)

abbrev pub apply_writable :
    Option ApplyError → Faults → Text → Release → Fetch → Disk → Disk × Applied
apply_writable (some e) f current r x d = (d, failed e)
apply_writable none f current r x d = apply_downloaded f current r (download x r d)

abbrev pub apply_answer : Answer → Faults → Text → Fetch → Disk → Disk × Applied
apply_answer no_source f current x d = (d, failed unconfigured)
apply_answer source_failed f current x d = (d, failed source_error)
apply_answer (offered r) f current x d =
    if is_empty r.sha256 || is_empty r.url
    then (d, failed no_release)
    else if newer current r.version
    then (if refuses d r.version
        then (d, nothing_to_do)
        else apply_writable (writable f) f current r x d)
    else (d, nothing_to_do)

unfoldable pub apply : Faults → Text → Answer → Fetch → Disk → Disk × Applied
apply f current a x d = apply_answer a f current x d
