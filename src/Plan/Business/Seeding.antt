-- ===== src/Plan/Business/Seeding.antt =====
-- business/domain/plan/planbus/planbus.go: Seed installs a plan once.
use sion_backup.Prelude.{
  ◌≡◌, true, false, Option, none, some, inl, inr, arith, Bool-cases, List, [], ◌∷◌,
}
use sion_backup.Prelude.Result.{Result, ok, err}
use sion_backup.Prelude.Time.{Time}
use sion_backup.Plan.Record.{Plan, PlanError, validate, runnable}
use sion_backup.Plan.Store.{Store, StoreFaults}
use sion_backup.Plan.Business.{
  PlanFault, put, confirm, seed, seed_checked, get, put_checked, confirm_plan, record_measurement,
  record_integrity, record_machine_state, record_state_failure,
}
use sion_backup.Plan.Business.Stored.{
  Call, put_call, confirm_call, seed_call, measurement_call, integrity_call, state_call,
  failure_call, step, run_calls,
}

put_checked-seeded :
    (o : Option PlanError) (f : StoreFaults) (p : Plan) (s : Store)
    → s.seeded ≡ true
    → (put_checked o f p s).0.seeded ≡ true
put_checked-seeded (some e) f p s h = h
put_checked-seeded none f p s h = ground arith

confirm_plan-seeded :
    (r : Result PlanFault Plan) (f : StoreFaults) (now : Time) (s : Store)
    → s.seeded ≡ true
    → (confirm_plan r f now s).0.seeded ≡ true
confirm_plan-seeded (err e) f now s h = h
confirm_plan-seeded (ok p) f now s h =
    put_checked-seeded (runnable p) f (record p { confirmed_at = now; updated_at = now }) s h

seed_again :
    (f : StoreFaults) (p : Plan) (now : Time) (s : Store) → s.seeded ≡ true → (seed f p now s).0 ≡ s
unfolding seed
seed_again f p now s h = elim (Bool-cases f.seeded) [ inl e ↦ simp e | inr e ↦ simp (e, h) ]

step-seeded :
    (f : StoreFaults) (c : Call) (s : Store) → s.seeded ≡ true → (step f c s).seeded ≡ true
unfolding step
step-seeded f (put_call p now) s h =
    unfold put in put_checked-seeded (validate p) f (record p { updated_at = now }) s h
step-seeded f (confirm_call now) s h = unfold confirm in confirm_plan-seeded (get f s) f now s h
step-seeded f (seed_call p now) s h = rw (seed_again f p now s h) h
step-seeded f (measurement_call url now since size) s h = unfold record_measurement in ground arith
step-seeded f (integrity_call i) s h = unfold record_integrity in ground arith
step-seeded f (state_call m) s h = unfold record_machine_state in ground arith
step-seeded f (failure_call reason) s h = unfold record_state_failure in ground arith

run_calls-seeded :
    (cs : List (StoreFaults × Call)) (s : Store) → s.seeded ≡ true → (run_calls cs s).seeded ≡ true
unfolding run_calls
run_calls-seeded [] s h = h
run_calls-seeded ((f, c) ∷ cs) s h = run_calls-seeded cs (step f c s) (step-seeded f c s h)

seed_checked-seeded :
    (o : Option PlanError) (f : StoreFaults) (p : Plan) (s s' : Store)
    → seed_checked o f p s ≡ (s', ok true)
    → s'.seeded ≡ true
seed_checked-seeded (some e) f p s s' h = cc
seed_checked-seeded none f p s s' h = ground arith

seed-seeded :
    (f : StoreFaults) (p : Plan) (now : Time) (s s' : Store)
    → seed f p now s ≡ (s', ok true)
    → s'.seeded ≡ true
unfolding seed
seed-seeded f p now s s' h = elim (Bool-cases f.seeded) [
  | inl e ↦ cc (simp e at h)
  | inr e ↦ elim (Bool-cases s.seeded) [
    | inl g ↦ cc (simp (e, g) at h)
    | inr g ↦
        seed_checked-seeded (validate p) f (record p { updated_at = now }) s s' (simp (e, g) at h)
  ]
]

-- Once Seed has installed a plan, no later Seed that can ask the store whether the machine was
-- seeded changes anything, whatever calls came between and whatever the store refused during
-- them: it reports that it did nothing.
pub seed_once :
    (f : StoreFaults) (p : Plan) (now : Time) (s s' : Store)
    → seed f p now s ≡ (s', ok true)
    → (cs : List (StoreFaults × Call)) (g : StoreFaults) (q : Plan) (later : Time)
    → g.seeded ≡ false
    → seed g q later (run_calls cs s') ≡ (run_calls cs s', ok false)
unfolding seed
seed_once f p now s s' h cs g q later hg =
    simp (hg, run_calls-seeded cs s' (seed-seeded f p now s s' h))
