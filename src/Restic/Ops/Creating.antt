-- ===== src/Restic/Ops/Creating.antt =====
-- foundation/restic/ops.go: which commands Ensure sends to restic, and what its success means.
use sion_backup.Prelude.{
  Bool, true, false, Option, none, some, List, [], ◌∷◌, ◌++◌, ◌≡◌, inl, inr, refl, ap, arith, Any,
  length,
}
use sion_backup.Prelude.Text.{Text}
use sion_backup.Prelude.Result.{Result, ok, err}
use sion_backup.Restic.{ProcessEnd, Failure}
use sion_backup.Restic.Command.{Repository, RepositoryError, validate}
use sion_backup.Restic.Ops.{
  command_cat_config, command_init, run, run_valid, init, exists, ensure, ensure_found,
  ensure_created, ensure_opened,
}

-- The commands that were sent, the first first.
abbrev pub Sent : Type 0
Sent = List (List Text)

abbrev pub HasInit : Sent → Type 0
HasInit = Any (λ a. a ≡ command_init)

abbrev pub sent_if : Option RepositoryError → List Text → Sent
sent_if none args = args ∷ []
sent_if (some e) args = []

no_init_in_cat : (o : Option RepositoryError) → HasInit (sent_if o command_cat_config) → ⊥
no_init_in_cat none (inl e) = omega (arith, ap length e)
no_init_in_cat none (inr a) = a
no_init_in_cat (some e) a = a

module _ {S : Type 0} (exec : List Text → S → S × ProcessEnd) where
  -- The same binary, with what it is sent written down.
  abbrev pub logged : List Text → Sent × S → (Sent × S) × ProcessEnd
  logged args (l, s) = let (t, e) = exec args s in ((l ++ args ∷ [], t), e)

  run_valid-logged :
      (o : Option RepositoryError) (args : List Text) (s : S)
      → run_valid logged o args ([], s)
        ≡ ((sent_if o args, (run_valid exec o args s).0), (run_valid exec o args s).1)
  run_valid-logged none args s = refl
  run_valid-logged (some e) args s = refl

  exists-logged :
      (repo : Repository) (s : S)
      → exists logged repo ([], s) ≡ (
        (sent_if (validate repo) command_cat_config, (exists exec repo s).0),
        (exists exec repo s).1,
      )
  unfolding exists run
  exists-logged repo s = rw (run_valid-logged (validate repo) command_cat_config s) refl

  found_creates :
      (repo : Repository) (t : Sent × S) (r : Result Failure Bool)
      → (HasInit t.0 → ⊥)
      → HasInit (ensure_found logged repo true (t, r)).0.0
      → r ≡ ok false
  found_creates repo t (err e) n h = absurd (n h)
  found_creates repo t (ok true) n h = absurd (n h)
  found_creates repo t (ok false) n h = refl

  found_never :
      (repo : Repository) (t : Sent × S) (r : Result Failure Bool)
      → (HasInit t.0 → ⊥)
      → HasInit (ensure_found logged repo false (t, r)).0.0
      → ⊥
  found_never repo t (err e) n h = n h
  found_never repo t (ok true) n h = n h
  found_never repo t (ok false) n h = n h

  -- Some state of the world in which the repository opens.
  abbrev pub Opens : Repository → Type 0
  Opens repo = (t : S) × ((exists exec repo t).1 ≡ ok true)

  opened-Opens :
      (repo : Repository) (t : S) (x : S × Result Failure Bool)
      → exists exec repo t ≡ x
      → (ensure_opened exec x).2 ≡ none
      → Opens repo
  opened-Opens repo t (s, err e) h n = absurd (ground arith)
  opened-Opens repo t (s, ok false) h n = absurd (ground arith)
  opened-Opens repo t (s, ok true) h n = (t, rw h refl)

  created-Opens :
      (repo : Repository) (x : S × Option Failure)
      → (ensure_created exec repo x).2 ≡ none
      → Opens repo
  created-Opens repo (t, some e) n = absurd (ground arith)
  created-Opens repo (t, none) n = opened-Opens repo t (exists exec repo t) refl n

  found-Opens :
      (repo : Repository) (may : Bool) (s : S) (x : S × Result Failure Bool)
      → exists exec repo s ≡ x
      → (ensure_found exec repo may x).2 ≡ none
      → Opens repo
  found-Opens repo may s (t, err e) h n = absurd (ground arith)
  found-Opens repo may s (t, ok true) h n = (s, rw h refl)
  found-Opens repo false s (t, ok false) h n = absurd (ground arith)
  found-Opens repo true s (t, ok false) h n = created-Opens repo (init exec repo t) n

  -- Ensure sends an init only with the caller's permission, and only after restic has answered that
  -- there is no repository; and it succeeds only if restic has opened the repository.
  pub ensure-creates :
      (repo : Repository) (may : Bool) (s : S)
      → (HasInit (ensure logged repo may ([], s)).0.0
          → (may ≡ true) × ((exists exec repo s).1 ≡ ok false))
        × ((ensure exec repo may s).2 ≡ none → Opens repo)
  unfolding ensure
  ensure-creates repo true s = (
    rw (exists-logged repo s) (λ h. (
      refl,
      found_creates repo (sent_if (validate repo) command_cat_config, (exists exec repo s).0)
          (exists exec repo s).1 (no_init_in_cat (validate repo)) h,
    )),
    found-Opens repo true s (exists exec repo s) refl,
  )
  ensure-creates repo false s = (
    rw (exists-logged repo s) (λ h. absurd (
        found_never repo (sent_if (validate repo) command_cat_config, (exists exec repo s).0)
          (exists exec repo s).1 (no_init_in_cat (validate repo)) h)),
    found-Opens repo false s (exists exec repo s) refl,
  )
