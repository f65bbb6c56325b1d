-- ===== src/Plan/Business/Confirming.antt =====
-- business/domain/plan/planbus/planbus.go: Confirm releases a plan that can be run, and no other.
use sion_backup.Prelude.{◌≡◌, false, Option, none, some, inl, inr, refl, Bool-cases, List, [], ◌∷◌}
use sion_backup.Prelude.Text.{Text}
use sion_backup.Prelude.Result.{Result, ok, err}
use sion_backup.Prelude.Time.{Time}
use sion_backup.Plan.Schedule.{is_nil}
use sion_backup.Plan.Record.{Plan, PlanError, validate, runnable, targets_error}
use sion_backup.Plan.Store.{Store, StoreFaults, stored}
use sion_backup.Plan.Business.{PlanFault, confirm, get, put_checked, confirm_plan, or_no_plan}

abbrev pub approved : Plan → Time → Plan
approved p now = record p { confirmed_at = now; updated_at = now }

-- How Confirm ends: with the stored plan approved, and then it has targets and passes every check; or
-- with an error, and then nothing is written.
abbrev pub ConfirmEnds : Store → Time → Store × Option PlanFault → Type 0
ConfirmEnds s now (s', none) =
    (p : Plan) × (s.plan ≡ some p)
    × (validate p ≡ none)
    × (is_nil p.targets ≡ false)
    × (s' ≡ record s { plan = some (stored (approved p now)) })
ConfirmEnds s now (s', some e) = s' ≡ s

runnable_parts : (p : Plan) → runnable p ≡ none → (validate p ≡ none) × (is_nil p.targets ≡ false)
unfolding runnable
runnable_parts p h = parts (validate p) p.targets h
  where
    parts :
        (o : Option PlanError) (ts : List Text)
        → targets_error o ts ≡ none
        → (o ≡ none) × (is_nil ts ≡ false)
    parts (some e) ts h = cc
    parts none [] h = cc
    parts none (t ∷ ts) h = (refl, refl)

confirm_checked :
    (o : Option PlanError) (f : StoreFaults) (p : Plan) (now : Time) (s : Store)
    → runnable p ≡ o
    → s.plan ≡ some p
    → ConfirmEnds s now (put_checked o f (approved p now) s)
confirm_checked (some e) f p now s r h = refl
confirm_checked none f p now s r h = elim (Bool-cases f.put) [
  | inl e ↦ simp e
  | inr e ↦ let (v, t) = runnable_parts p r in simp e (p, h, v, t, refl)
]

pub get_ok : (f : StoreFaults) (s : Store) (p : Plan) → get f s ≡ ok p → s.plan ≡ some p
unfolding get
get_ok f s p h = elim (Bool-cases f.get) [
  | inl e ↦ cc (simp e at h)
  | inr e ↦ of_plan s.plan (simp e at h)
]
  where
    of_plan : (o : Option Plan) → or_no_plan o ≡ ok p → o ≡ some p
    of_plan none h = cc
    of_plan (some q) h = cc

-- Whatever the store refuses, Confirm either approves the plan that is stored, which then has targets
-- and passes Validate, and changes nothing of it but the two dates and what storing rounds, or
-- returns an error and leaves the store as it was.
pub confirm-ConfirmEnds :
    (f : StoreFaults) (now : Time) (s : Store) → ConfirmEnds s now (confirm f now s)
unfolding confirm
confirm-ConfirmEnds f now s = of_get (get f s) refl
  where
    of_get : (r : Result PlanFault Plan) → get f s ≡ r → ConfirmEnds s now (confirm_plan r f now s)
    of_get (err e) h = refl
    of_get (ok p) h = confirm_checked (runnable p) f p now s refl (get_ok f s p h)
