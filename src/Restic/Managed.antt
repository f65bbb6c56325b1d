-- ===== src/Restic/Managed.antt =====
-- foundation/restic/manage.go: the restic that the program installs itself: EnsurePinned with the
-- version it reads, install, its smoke test and the swap. What a download and the archive deliver is an
-- argument; the directory it works in is not modelled.
pub mod Pinned
use sion_backup.Prelude.{
  ℕ, Bool, true, false, Option, none, some, List, [], ◌∷◌, not, ◌==◌, ◌||◌, if◌then◌else◌,
}
use sion_backup.Prelude.Text.{
  Text, codes, text_eq, is_empty, is_space, is_digit, trim_space, trim_prefix_char, split,
  cons_head,
}
use sion_backup.Prelude.Result.{Result, ok, err}
use sion_backup.SelfUpdate.Disk.{Binary}

-- strings.Fields; `inside`: the character before was no space.
unfoldable pub words_from : Bool → Text → List Text
words_from inside [] = if inside then [] ∷ [] else []
words_from inside (c ∷ s) =
    let after_space = words_from false s in
    let after_char = words_from true s in
    if is_space c
    then (if inside then [] ∷ after_space else after_space)
    else cons_head c after_char

unfoldable pub words : Text → List Text
unfolding words_from
words s = words_from false s

abbrev pub drop_v : Text → Text
drop_v s = trim_prefix_char b'v' s

unfoldable pub all_digits : Text → Bool
all_digits [] = true
all_digits (c ∷ s) = let rest = all_digits s in if is_digit c then rest else false

abbrev pub is_number : Text → Bool
is_number s = if is_empty s then false else all_digits s

abbrev pub three_numbers : List Text → Bool
three_numbers (a ∷ b ∷ c ∷ []) =
    if is_number a then (if is_number b then is_number c else false) else false
three_numbers _ = false

-- Whether parseVersion reads three numbers.
unfoldable pub is_version : Text → Bool
is_version v = three_numbers (split b'.' (drop_v (trim_space v)))

abbrev pub if_version : Text → Text
if_version number = if is_version number then number else []

abbrev pub number_of : List Text → Text
number_of (name ∷ number ∷ ws) =
    if text_eq name (codes "restic") then if_version (drop_v number) else []
number_of _ = []

-- VersionNumber: the version in the line that restic prints, or nothing.
unfoldable pub version_number : Text → Text
version_number line = number_of (words line)

-- The binary in its place, and the one set aside.
pub record Files : Type 0 where
  pub bin : Option Binary
  pub old : Option Binary

-- The calls that the operating system refuses.
pub record Faults : Type 0 where
  pub make : Bool
  pub remove_old : Bool
  pub aside : Bool
  pub into_place : Bool
  pub back : Bool

pub record Pin : Type 0 where
  pub version : Text
  pub sha256 : Text

-- A download that failed, or one with its hash and the binary that its archive holds, if it does.
pub data Download : Type 0 where
  not_downloaded : Download
  downloaded : Text → Option Binary → Download

pub data InstallError : Type 0 where
  no_room download_failed wrong_hash not_extracted does_not_run : InstallError
  not_aside not_installed not_put_back : InstallError
  version_failed no_version : InstallError

-- InstalledVersion, empty for its errors; `said`: what the binary in place prints on stdout when it is run,
-- or nothing where there is none or it fails. One binary may end in two ways on two runs.
abbrev pub installed_version : Option Text → Text
installed_version none = []
installed_version (some line) = version_number (trim_space line)

-- The output of a binary is what it prints on stdout and stderr together.
unfoldable pub smoke_test : Binary → Text → Bool
smoke_test b want = if b.runs then text_eq (version_number (trim_space b.output)) want else false

-- os.Rename of a file that may be missing: nothing changes where it fails.
abbrev pub cleared : Bool → Option Binary → Option Binary
cleared refused old = if refused then old else none

-- After the new binary could not be moved in; `b` and `o`: what is in place and what is set aside.
abbrev pub put_back : Faults → Option Binary → Option Binary → Files × Option InstallError
put_back f b none = (record { bin = b; old = none }, some not_installed)
put_back f b (some o) =
    if f.back
    then (record { bin = b; old = some o }, some not_put_back)
    else (record { bin = some o; old = none }, some not_installed)

abbrev pub moved_in : Faults → Binary → Option Binary → Option Binary → Files × Option InstallError
moved_in f staged b o =
    if f.into_place
    then put_back f b o
    else (record { bin = some staged; old = cleared f.remove_old o }, none)

abbrev pub swap_from : Faults → Binary → Option Binary → Option Binary → Files × Option InstallError
swap_from f staged none o = moved_in f staged none o
swap_from f staged (some b) o =
    if f.aside
    then (record { bin = some b; old = o }, some not_aside)
    else moved_in f staged none (some b)

abbrev pub swap : Faults → Binary → Files → Files × Option InstallError
swap f staged s = swap_from f staged s.bin (cleared f.remove_old s.old)

abbrev pub extracted : Faults → Pin → Files → Option Binary → Files × Option InstallError
extracted f p s none = (s, some not_extracted)
extracted f p s (some b) = if smoke_test b p.version then swap f b s else (s, some does_not_run)

abbrev pub fetched : Faults → Pin → Files → Download → Files × Option InstallError
fetched f p s not_downloaded = (s, some download_failed)
fetched f p s (downloaded sum b) =
    if text_eq sum p.sha256 then extracted f p s b else (s, some wrong_hash)

unfoldable pub install : Faults → Pin → Download → Files → Files × Option InstallError
install f p x s = if f.make then (s, some no_room) else fetched f p s x

pub data Outcome : Type 0 where
  override : Outcome
  already : Text → Outcome
  installed : Text → Outcome
  replaced : Text → Text → Outcome

abbrev pub is_there : Option Binary → Bool
is_there none = false
is_there (some b) = true

-- The action, by the version that was read before and whether there was a binary.
abbrev pub installed_as : Option Binary → Text → Text → Outcome
installed_as was from to =
    if not (is_empty from) || is_there was then replaced from to else installed to

-- The second run of the binary, now the new one.
abbrev pub reported : Option Binary → Text → Option Text → Result InstallError Outcome
reported was from none = err version_failed
reported was from (some line) =
    let to = version_number (trim_space line) in
    if is_empty to then err no_version else ok (installed_as was from to)

abbrev pub after_install :
    Option Binary
    → Text
    → Option Text
    → Files × Option InstallError
    → Files × Result InstallError Outcome
after_install was from again (s, some e) = (s, err e)
after_install was from again (s, none) = (s, reported was from again)

-- `managed`: no operator has named a binary; `first` and `again`: the runs before and after install.
unfoldable pub ensure_pinned :
    Bool
    → Faults
    → Pin
    → Download
    → Option Text
    → Option Text
    → Files
    → Files × Result InstallError Outcome
ensure_pinned managed f p x first again s =
    if not managed
    then (s, ok override)
    else if text_eq (installed_version first) p.version
    then (s, ok (already p.version))
    else after_install s.bin (installed_version first) again (install f p x s)
