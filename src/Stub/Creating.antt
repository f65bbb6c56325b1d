-- ===== src/Stub/Creating.antt =====
-- rotation.go of the stub with openRepository of cmd/sion-backup/rotate.go: what a machine makes of the
-- credentials that the server answers.
use sion_backup.Prelude.{ℕ, Bool, true, false, some, List, [], ◌≡◌, ap, ◌∙◌, arith, get_elem?}
use sion_backup.Prelude.Text.{Text}
use sion_backup.Restic.{ProcessEnd}
use sion_backup.Restic.Command.{Repository}
use sion_backup.Restic.Ops.Creating.{HasInit, logged}
use sion_backup.Daemon.Opening.{open_repository, open_repository-creates}
use sion_backup.Stub.{Repo, Stub, current, expect_empty, row_at}
use sion_backup.Stub.Calls.{Call, steps, Reply, credentials_for, credentials_of, credentials}
use sion_backup.Stub.Evolving.{steps-RowMovesOn}

-- What the client reads of the answer: whether it may create a repository.
abbrev pub permits : Reply → Bool
permits (credentials_for url state permitted) = permitted
permits _ = false

credentials-permits :
    (s : Stub) (i : ℕ) (t : Repo)
    → current s.repos ≡ some i
    → get_elem? s.repos i ≡ some t
    → permits (credentials s) ≡ expect_empty t
unfolding credentials
credentials-permits s i t c e = ap (λ o. permits (credentials_of o)) (ap (row_at s.repos) c ∙ e)

-- The permission to create ends with the first snapshot: when a row says that a snapshot has landed, and
-- that row is the one the machine writes to after whatever further calls, then a scheduled run that
-- goes by the credentials it is answered sends restic no init, whatever restic and the storage say.
pub no_second_creation :
    {S : Type 0} (exec : List Text → S → S × ProcessEnd) (w : S) (repo : Repository)
    (cs : List Call) (s : Stub) (i : ℕ) (r : Repo)
    → get_elem? s.repos i ≡ some r
    → r.snapshot ≡ true
    → current (steps cs s).repos ≡ some i
    → ¬ HasInit
        (open_repository (logged exec) (permits (credentials (steps cs s))) repo ([], w)).0.0
no_second_creation exec w repo cs s i r h l c m =
    let (t, e, _, _, closed) = steps-RowMovesOn cs s i r h in
    let p = credentials-permits (steps cs s) i t c e ∙ closed l in
    let (allowed, _) =
      (open_repository-creates exec (permits (credentials (steps cs s))) repo w).0 m in
    ground arith
