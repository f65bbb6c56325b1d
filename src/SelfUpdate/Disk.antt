-- ===== src/SelfUpdate/Disk.antt =====
-- foundation/selfupdate: the files beside the binary (Updater.exe with its suffixes), and the calls
-- of package os on them. Which calls the operating system refuses is an argument, `Faults`.
use sion_backup.Prelude.{ℕ, Bool, true, false, Option, none, some, ◌&&◌, if◌then◌else◌}
use sion_backup.Prelude.Text.{Text, contains}

-- A program on the disk: whether running its `version` command succeeds, what that prints, and the
-- hash of its bytes in hexadecimal.
pub record Binary : Type 0 where
  pub runs : Bool
  pub output : Text
  pub sum : Text

-- exe, exe.old, exe.new and exe.back.
pub data Slot : Type 0 where
  exe old staged back : Slot

-- What a swap leaves behind, beside the binary.
pub record Probation : Type 0 where
  pub installed : Text
  pub previous : Text
  pub starts : ℕ

-- The probation file: a state, or bytes that do not decode.
pub data ProbationFile : Type 0 where
  state : Probation → ProbationFile
  corrupt : ProbationFile

pub record Disk : Type 0 where
  pub exe_file : Option Binary
  pub old_file : Option Binary
  pub staged_file : Option Binary
  pub back_file : Option Binary
  pub probation_file : Option ProbationFile
  pub refused_file : Option Text

-- How a call of os.WriteFile ends: done, refused with the file as it was, or broken off after some
-- of the text.
pub data Write : Type 0 where
  done denied : Write
  torn : ℕ → Write

-- The calls that the operating system refuses, whatever the files are.
pub record Faults : Type 0 where
  pub rename : Slot → Slot → Bool
  pub remove : Slot → Bool
  pub remove_probation : Bool
  pub remove_refused : Bool
  pub write_probation : Write
  pub write_refused : Write
  pub probe : Bool
  pub remove_probe : Bool

-- An operating system that refuses nothing.
abbrev pub no_faults : Faults
no_faults = record {
  rename = λ a b. false;
  remove = λ a. false;
  remove_probation = false;
  remove_refused = false;
  write_probation = done;
  write_refused = done;
  probe = false;
  remove_probe = false;
}

abbrev pub get : Slot → Disk → Option Binary
get exe d = d.exe_file
get old d = d.old_file
get staged d = d.staged_file
get back d = d.back_file

abbrev pub put : Slot → Option Binary → Disk → Disk
put exe b d = record d { exe_file = b }
put old b d = record d { old_file = b }
put staged b d = record d { staged_file = b }
put back b d = record d { back_file = b }

abbrev pub rename_file : Bool → Option Binary → Slot → Slot → Disk → Disk × Bool
rename_file true c a b d = (d, false)
rename_file false none a b d = (d, false)
rename_file false (some x) a b d = (put a none (put b (some x) d), true)

-- os.Rename: false on an error, which a missing file is too.
unfoldable pub rename : Faults → Slot → Slot → Disk → Disk × Bool
rename f a b d = rename_file (f.rename a b) (get a d) a b d

-- os.Remove with its error ignored.
unfoldable pub remove : Faults → Slot → Disk → Disk
remove f a d = if f.remove a then d else put a none d

-- smokeTest: the binary must exist and run, and name the version wanted.
unfoldable pub smoke_test : Option Binary → Text → Bool
smoke_test none want = false
smoke_test (some b) want = b.runs && contains b.output want
