-- ===== src/Plan/Business/Stored.antt =====
-- business/domain/plan/planbus/planbus.go: every plan that the operations store is a valid one.
use sion_backup.Prelude.{
  ◌≡◌, true, false, Option, none, some, ◌⊎◌, inl, inr, arith, refl, ℤ, pos, negsuc, Bool-cases,
  List, [], ◌∷◌, ltb_ℤ,
}
use sion_backup.Prelude.Text.{Text}
use sion_backup.Prelude.Result.{Result, ok, err}
use sion_backup.Prelude.Time.{Time}
use sion_backup.Plan.Schedule
use sion_backup.Plan.Schedule.{Schedule, bounds_error, first_bad, is_nil}
use sion_backup.Plan.Record.{Plan, PlanError, validate, runnable}
use sion_backup.Plan.Measurement.{Measurement}
use sion_backup.Plan.Integrity.{Integrity}
use sion_backup.Plan.Machine.{MachineState}
use sion_backup.Plan.Store.{Store, StoreFaults, stored, whole_seconds}
use sion_backup.Plan.Business.{
  get, put, confirm, seed, record_measurement, record_integrity, record_machine_state,
  record_state_failure, put_plan, put_checked, seed_checked, mark_seeded, confirm_plan, PlanFault,
}

-- One call of an operation that writes, with what the store refuses then.
pub data Call : Type 0 where
  put_call : Plan → Time → Call
  confirm_call : Time → Call
  seed_call : Plan → Time → Call
  measurement_call : Text → Time → Time → Measurement → Call
  integrity_call : Integrity → Call
  state_call : MachineState → Call
  failure_call : Text → Call

-- The store after a call, whether it returned an error or not.
unfoldable pub step : StoreFaults → Call → Store → Store
step f (put_call p now) s = (put f p now s).0
step f (confirm_call now) s = (confirm f now s).0
step f (seed_call p now) s = (seed f p now s).0
step f (measurement_call url now since size) s = (record_measurement f url now since size s).0
step f (integrity_call i) s = (record_integrity f i s).0
step f (state_call m) s = (record_machine_state f m s).0
step f (failure_call reason) s = (record_state_failure f reason s).0

unfoldable pub run_calls : List (StoreFaults × Call) → Store → Store
run_calls [] s = s
run_calls ((f, c) ∷ cs) s = run_calls cs (step f c s)

-- The plan, if there is one, passes Validate.
abbrev pub IsStorable : Option Plan → Type 0
IsStorable none = Unit
IsStorable (some p) = validate p ≡ none

whole_seconds_sign : (d : ℤ) → ltb_ℤ d (pos 0) ≡ false → ltb_ℤ (whole_seconds d) (pos 0) ≡ false
whole_seconds_sign (pos n) h = ground arith
whole_seconds_sign (negsuc n) h = absurd (ground arith)

bounds-stored :
    (o : Option Schedule.TimeError) (s : Schedule)
    → bounds_error o s ≡ none
    → bounds_error o (record s { min_interval = whole_seconds s.min_interval }) ≡ none
bounds-stored none s h = ground (arith, whole_seconds_sign s.min_interval)
bounds-stored (some e) s h = cc

schedule-stored :
    (s : Schedule)
    → Schedule.validate s ≡ none
    → Schedule.validate (record s { min_interval = whole_seconds s.min_interval }) ≡ none
unfolding Schedule.validate
schedule-stored s h = ground (arith, bounds-stored (first_bad s.times) s)

-- Storing rounds the interval and the dates, and a valid plan stays valid.
pub validate-stored : (p : Plan) → validate p ≡ none → validate (stored p) ≡ none
unfolding validate stored
validate-stored p h = ground (arith, schedule-stored p.schedule)

-- The dates of a plan are not validated.
pub validate-dates :
    (p : Plan) (c u : Time)
    → validate p ≡ none
    → validate (record p { confirmed_at = c; updated_at = u }) ≡ none
unfolding validate
validate-dates p c u h = h

pub validate_of_runnable : (p : Plan) → runnable p ≡ none → validate p ≡ none
unfolding runnable
validate_of_runnable p h = ground arith

put_plan-IsStorable :
    (f : StoreFaults) (p : Plan) (s : Store)
    → validate p ≡ none
    → IsStorable s.plan
    → IsStorable (put_plan f p s).0.plan
put_plan-IsStorable f p s v h = elim (Bool-cases f.put) [
  | inl e ↦ rw e h
  | inr e ↦ rw e (validate-stored p v)
]

put_checked-IsStorable :
    (o : Option PlanError) (f : StoreFaults) (p : Plan) (s : Store)
    → (o ≡ none → validate p ≡ none)
    → IsStorable s.plan
    → IsStorable (put_checked o f p s).0.plan
put_checked-IsStorable (some e) f p s v h = h
put_checked-IsStorable none f p s v h = put_plan-IsStorable f p s (v refl) h

seed_checked-IsStorable :
    (o : Option PlanError) (f : StoreFaults) (p : Plan) (s : Store)
    → (o ≡ none → validate p ≡ none)
    → IsStorable s.plan
    → IsStorable (seed_checked o f p s).0.plan
seed_checked-IsStorable (some e) f p s v h = h
seed_checked-IsStorable none f p s v h = elim (Bool-cases f.put) [
  | inl e ↦ rw e h
  | inr e ↦ rw e (marked (Bool-cases f.mark_seeded))
]
  where
    marked :
        (f.mark_seeded ≡ true) ⊎ (f.mark_seeded ≡ false)
        → IsStorable (mark_seeded f (record s { plan = some (stored p) }, none)).0.plan
    marked (inl e) = rw e (validate-stored p (v refl))
    marked (inr e) = rw e (validate-stored p (v refl))

confirm_plan-IsStorable :
    (r : Result PlanFault Plan) (f : StoreFaults) (now : Time) (s : Store)
    → IsStorable s.plan
    → IsStorable (confirm_plan r f now s).0.plan
confirm_plan-IsStorable (err e) f now s h = h
confirm_plan-IsStorable (ok p) f now s h =
    put_checked-IsStorable (runnable p) f (record p { confirmed_at = now; updated_at = now }) s
      (λ e. validate-dates p now now (validate_of_runnable p e)) h

seed-IsStorable :
    (f : StoreFaults) (p : Plan) (now : Time) (s : Store)
    → IsStorable s.plan
    → IsStorable (seed f p now s).0.plan
unfolding seed
seed-IsStorable f p now s h = elim (Bool-cases f.seeded) [
  | inl e ↦ simp e h
  | inr e ↦ elim (Bool-cases s.seeded) [
    | inl g ↦ simp (e, g) h
    | inr g ↦
        simp (e, g)
          (seed_checked-IsStorable (validate p) f (record p { updated_at = now }) s
            (validate-dates p p.confirmed_at now) h)
  ]
]

step-IsStorable :
    (f : StoreFaults) (c : Call) (s : Store) → IsStorable s.plan → IsStorable (step f c s).plan
unfolding step
step-IsStorable f (put_call p now) s h =
    unfold put in
    put_checked-IsStorable (validate p) f (record p { updated_at = now }) s
      (validate-dates p p.confirmed_at now) h
step-IsStorable f (confirm_call now) s h =
    unfold confirm in confirm_plan-IsStorable (get f s) f now s h
step-IsStorable f (seed_call p now) s h = seed-IsStorable f p now s h
step-IsStorable f (measurement_call url now since size) s h =
    unfold record_measurement in ground arith
step-IsStorable f (integrity_call i) s h = unfold record_integrity in ground arith
step-IsStorable f (state_call m) s h = unfold record_machine_state in ground arith
step-IsStorable f (failure_call reason) s h = unfold record_state_failure in ground arith

-- Whatever calls are made, in whatever order, and whatever of them the store refuses, a store whose
-- plan, if it has one, passes Validate still has no plan or one that passes.
pub run_calls-IsStorable :
    (cs : List (StoreFaults × Call)) (s : Store)
    → IsStorable s.plan
    → IsStorable (run_calls cs s).plan
unfolding run_calls
run_calls-IsStorable [] s h = h
run_calls-IsStorable ((f, c) ∷ cs) s h =
    run_calls-IsStorable cs (step f c s) (step-IsStorable f c s h)
