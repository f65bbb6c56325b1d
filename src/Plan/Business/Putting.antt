-- ===== src/Plan/Business/Putting.antt =====
-- business/domain/plan/planbus/planbus.go: what Put leaves in the store.
use sion_backup.Prelude.{◌≡◌, Option, none, some, inl, inr, refl, ap, Bool-cases}
use sion_backup.Prelude.Time.{Time}
use sion_backup.Plan.Record.{Plan, PlanError, validate}
use sion_backup.Plan.Store.{Store, StoreFaults, stored}
use sion_backup.Plan.Business.{PlanFault, put, put_checked}

-- How Put ends: with the plan stored, and then it passed Validate; or with an error and nothing written.
abbrev pub PutEnds : Plan → Time → Store → Store × Option PlanFault → Type 0
PutEnds p now s (t, none) =
    (validate p ≡ none) × (t ≡ record s { plan = some (stored (record p { updated_at = now })) })
PutEnds p now s (t, some e) = t ≡ s

checked-PutEnds :
    (o : Option PlanError) (f : StoreFaults) (p : Plan) (now : Time) (s : Store)
    → validate p ≡ o
    → PutEnds p now s (put_checked o f (record p { updated_at = now }) s)
checked-PutEnds (some e) f p now s h = refl
checked-PutEnds none f p now s h = elim (Bool-cases f.put) [
  | inl e ↦ simp e refl
  | inr e ↦ simp e (h, refl)
]

pub put-PutEnds :
    (f : StoreFaults) (p : Plan) (now : Time) (s : Store) → PutEnds p now s (put f p now s)
unfolding put
put-PutEnds f p now s = checked-PutEnds (validate p) f p now s refl

ended :
    (p : Plan) (now : Time) (s : Store) (x : Store × Option PlanFault)
    → PutEnds p now s x
    → x.1 ≡ none
    → (validate p ≡ none) × (x.0.plan ≡ some (stored (record p { updated_at = now })))
ended p now s (t, none) (v, h) e = (v, ap (λ (y : Store). y.plan) h)
ended p now s (t, some y) h e = cc

pub put-plan :
    (f : StoreFaults) (p : Plan) (now : Time) (s : Store)
    → (put f p now s).1 ≡ none
    → (validate p ≡ none) × ((put f p now s).0.plan ≡ some (stored (record p { updated_at = now })))
put-plan f p now s h = ended p now s (put f p now s) (put-PutEnds f p now s) h
