-- ===== src/Daemon/Opening.antt =====
-- cmd/sion-backup/rotate.go: openRepository, the one place outside enrolment that may create a
-- repository.
use sion_backup.Prelude.{Bool, true, false, Option, none, List, [], ◌≡◌, arith, if◌then◌else◌}
use sion_backup.Prelude.Text.{Text}
use sion_backup.Prelude.Result.{ok}
use sion_backup.Restic.{ProcessEnd}
use sion_backup.Restic.Command.{Repository}
use sion_backup.Restic.Ops.{EnsureError, ensure, exists}
use sion_backup.Restic.Ops.Creating.{HasInit, logged, Opens, ensure-creates}

module _ {S : Type 0} (exec : List Text → S → S × ProcessEnd) where
  abbrev pub error_only : S × Bool × Option EnsureError → S × Option EnsureError
  error_only (s, created, e) = (s, e)

  unfoldable pub open_repository : Bool → Repository → S → S × Option EnsureError
  open_repository expect_empty repo s =
      if expect_empty then error_only (ensure exec repo true s) else (s, none)

module _ {S : Type 0} (exec : List Text → S → S × ProcessEnd) where
  -- A scheduled run sends an init only if the server said that the bucket is to be empty, and only after
  -- restic has answered that there is no repository; told so, it goes on only if restic has opened one.
  pub open_repository-creates :
      (expect_empty : Bool) (repo : Repository) (s : S)
      → (HasInit (open_repository (logged exec) expect_empty repo ([], s)).0.0
          → (expect_empty ≡ true) × ((exists exec repo s).1 ≡ ok false))
        × (expect_empty ≡ true
            → (open_repository exec expect_empty repo s).1 ≡ none
            → Opens exec repo)
  unfolding open_repository
  open_repository-creates true repo s =
      let (made, opens) = ensure-creates exec repo true s in (made, λ e n. opens n)
  open_repository-creates false repo s = (λ h. absurd h, λ e n. absurd (ground arith))
