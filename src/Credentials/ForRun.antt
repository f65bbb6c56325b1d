-- ===== src/Credentials/ForRun.antt =====
-- business/domain/credential/credentialbus/credentialbus.go and foundation/restic/restic.go: what a
-- run may rely on in the credentials it is given.
use sion_backup.Prelude.{Bool, true, false, Option, none, some, ◌≡◌, refl, arith, ℤ, subst}
use sion_backup.Prelude.Text.{Text, is_empty}
use sion_backup.Prelude.Result.{ok}
use sion_backup.Restic.Command.{validate}
use sion_backup.Credentials.{Set, Credentials, complete, repository, fetched, for_run}

valid_if_complete :
    (c : Credentials) (url : Text) (m n : ℤ)
    → complete c ≡ true
    → is_empty url ≡ false
    → validate (repository c url m n) ≡ none
unfolding complete validate repository
valid_if_complete c url m n h e = ground arith

fetched-ok :
    (t s : Set)
    → fetched (some t) ≡ ok s
    → (t ≡ s) × (complete t.credentials ≡ true) × (is_empty t.repository_url ≡ false)
fetched-ok t s h = ground arith

-- A set that a run is given makes a repository that restic is started with: ForRun hands out only sets
-- whose repository passes Validate, whatever the plan's tuning.
pub for_run_valid :
    (enrolled : Bool) (answer : Option Set) (s : Set) (m n : ℤ)
    → for_run enrolled answer ≡ ok s
    → (answer ≡ some s)
      × (enrolled ≡ true)
      × (validate (repository s.credentials s.repository_url m n) ≡ none)
unfolding for_run
for_run_valid false answer s m n h = absurd (ground arith)
for_run_valid true none s m n h = absurd (ground arith)
for_run_valid true (some t) s m n h =
    let (e, c, u) = fetched-ok t s h in
    subst
      (λ x.
        (some t ≡ some x)
        × (true ≡ true)
        × (validate (repository x.credentials x.repository_url m n) ≡ none))
      e (refl, refl, valid_if_complete t.credentials t.repository_url m n c u)
