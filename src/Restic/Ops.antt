-- ===== src/Restic/Ops.antt =====
-- foundation/restic: run (restic.go) and the operations on a repository (ops.go). The restic binary
-- is a function from its arguments and a state of the world to the next state and its end.
pub mod Creating
use sion_backup.Prelude.{
  ℕ, Bool, true, false, Option, none, some, List, [], ◌∷◌, ◌++◌, ◌==◌, pos, if◌then◌else◌,
}
use sion_backup.Prelude.Text.{Text, codes, is_empty, join, itoa}
use sion_backup.Prelude.Result.{Result, ok, err}
use sion_backup.Restic.{
  ProcessEnd, clean, exit, broken, Failure, exited, other, failure_of, exit_no_repository,
  exit_failed, exit_incomplete, exit_locked, exit_wrong_password,
}
use sion_backup.Restic.Command.{Repository, validate, RepositoryError, each}

abbrev pub exit_go_panic : ℕ
exit_go_panic = 2

unfoldable pub describe_exit : ℕ → Text
describe_exit code =
    if code == 0
    then codes "success"
    else if code == exit_failed
    then codes "the command failed"
    else if code == exit_go_panic
    then codes "restic itself crashed"
    else if code == exit_incomplete
    then codes "the snapshot was written but some files could not be read"
    else if code == exit_no_repository
    then codes "there is no repository at that URL"
    else if code == exit_locked
    then codes "the repository is locked by another restic"
    else if code == exit_wrong_password
    then codes "the repository password is wrong"
    else codes "unrecognised exit status"

-- Error.Error for a command with these arguments.
unfoldable pub error_text : List Text → Failure → Text
unfolding describe_exit
error_text args (exited code stderr) =
    codes "restic "
    ++ join 32 args
    ++ codes ": exit "
    ++ itoa (pos code)
    ++ codes " ("
    ++ describe_exit code
    ++ codes ")"
    ++ (if is_empty stderr then [] else codes ": " ++ stderr)
error_text args (other e) = e

abbrev pub invalid : RepositoryError → Failure
invalid e = other (codes "restic: invalid repository")

-- Only a missing repository; other failures are no answer.
unfoldable pub is_absent : Failure → Bool
is_absent (exited code stderr) = code == exit_no_repository
is_absent (other e) = false

abbrev pub exists_of : Option Failure → Result Failure Bool
exists_of none = ok true
exists_of (some e) = if is_absent e then ok false else err e

pub data EnsureError : Type 0 where
  unreachable not_created not_read_back : Failure → EnsureError
  absent still_absent : EnsureError

abbrev pub command_cat_config : List Text
command_cat_config = codes "cat" ∷ codes "config" ∷ []

abbrev pub command_init : List Text
command_init = codes "init" ∷ []

abbrev pub check_args : Text → List Text
check_args subset =
    codes "check" ∷ (if is_empty subset then [] else (codes "--read-data-subset=" ++ subset) ∷ [])

pub record RestoreOptions : Type 0 where
  pub snapshot : Text
  pub target : Text
  pub include : List Text

module _ {S : Type 0} (exec : List Text → S → S × ProcessEnd) where
  abbrev pub ended : S × ProcessEnd → S × Option Failure
  ended (s, e) = (s, failure_of e)

  abbrev pub run_valid : Option RepositoryError → List Text → S → S × Option Failure
  run_valid (some e) args s = (s, some (invalid e))
  run_valid none args s = ended (exec args s)

  unfoldable pub run : Repository → List Text → S → S × Option Failure
  run repo args s = run_valid (validate repo) args s

  unfoldable pub init : Repository → S → S × Option Failure
  init repo s = run repo command_init s

  unfoldable pub unlock : Repository → S → S × Option Failure
  unlock repo s = run repo (codes "unlock" ∷ []) s

  abbrev pub answered : S × Option Failure → S × Result Failure Bool
  answered (s, e) = (s, exists_of e)

  unfoldable pub exists : Repository → S → S × Result Failure Bool
  exists repo s = answered (run repo command_cat_config s)

  -- The reading back: whether Ensure created the repository, and its error.
  abbrev pub ensure_opened : S × Result Failure Bool → S × Bool × Option EnsureError
  ensure_opened (s, err e) = (s, true, some (not_read_back e))
  ensure_opened (s, ok false) = (s, true, some still_absent)
  ensure_opened (s, ok true) = (s, true, none)

  abbrev pub ensure_created : Repository → S × Option Failure → S × Bool × Option EnsureError
  ensure_created repo (s, some e) = (s, false, some (not_created e))
  ensure_created repo (s, none) = ensure_opened (exists repo s)

  abbrev pub ensure_found :
      Repository → Bool → S × Result Failure Bool → S × Bool × Option EnsureError
  ensure_found repo may_create (s, err e) = (s, false, some (unreachable e))
  ensure_found repo may_create (s, ok true) = (s, false, none)
  ensure_found repo false (s, ok false) = (s, false, some absent)
  ensure_found repo true (s, ok false) = ensure_created repo (init repo s)

  unfoldable pub ensure : Repository → Bool → S → S × Bool × Option EnsureError
  ensure repo may_create s = ensure_found repo may_create (exists repo s)

  unfoldable pub restore : Repository → RestoreOptions → S → S × Option Failure
  restore repo o s =
      if is_empty o.snapshot
      then (s, some (other (codes "restic: no snapshot")))
      else if is_empty o.target
      then (s, some (other (codes "restic: no target")))
      else run repo
          (codes "restore"
            ∷ o.snapshot
            ∷ codes "--target"
            ∷ o.target
            ∷ each (codes "--include") o.include)
          s

  -- Check, with the subset of the data to read; an empty one reads the structure only.
  unfoldable pub check : Repository → Text → S → S × Option Failure
  check repo subset s = run repo (check_args subset) s
