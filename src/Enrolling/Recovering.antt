-- ===== src/Enrolling/Recovering.antt =====
-- cmd/sion-backup/recover.go: recoverPlan, at the start of the program.
use sion_backup.Prelude.{
  ℕ, Bool, true, false, Option, none, some, List, [], ◌∷◌, not, ◌||◌, ◌&&◌, if◌then◌else◌, ◌≡◌, inl,
  inr, refl, ap, sym, ◌∙◌, arith, Bool-cases, Option-cases, subst,
}
use sion_backup.Prelude.Text.{Text, is_empty}
use sion_backup.Prelude.Result.{Result, ok, err}
use sion_backup.Prelude.Time.{Time, Calendar}
use sion_backup.Plan.Schedule.{Schedule}
use sion_backup.Plan.Schedule
use sion_backup.Plan.Schedule.Presets.{default_schedule}
use sion_backup.Plan.Business.Stored.{validate-stored}
use sion_backup.Plan.Record.{Plan, PlanError, validate, confirmed}
use sion_backup.Plan.Store.{Store, StoreFaults, stored}
use sion_backup.Plan.Business.{
  PlanFault, no_plan, store_failed, invalid, or_no_plan, get, put, put_checked,
}
use sion_backup.Backup.Runner.{Runner}
use sion_backup.Server.{State, ServerError, state, usable}
use sion_backup.Daemon.{maybe_run}
use sion_backup.Enrolling.{zero_plan}

-- The plan that the server's answer makes.
abbrev pub plan_from : State → Plan
plan_from x = record zero_plan {
  node_id = x.node_id;
  repository = x.repository_url;
  schedule = default_schedule;
}

abbrev pub recovered : StoreFaults → Time → Store → Result ServerError State → Store
recovered f now s (err e) = s
recovered f now s (ok x) = (put f (plan_from x) now s).0

-- Only where there is no plan; another failure to read it is left alone.
abbrev pub recover_from :
    StoreFaults → Result ServerError State → Time → Store → Result PlanFault Plan → Store
recover_from f answer now s (ok p) = s
recover_from f answer now s (err no_plan) = recovered f now s answer
recover_from f answer now s (err e) = s

unfoldable pub recover_plan : StoreFaults → Bool → Result Text State → Time → Store → Store
recover_plan f available answer now s =
    if not available then s else recover_from f (state available answer) now s (get f s)

-- A plan that is there stays; one that was not is missing still, or the one of the answer.
abbrev IsRecovered : Option Plan → Option Plan → Type 0
IsRecovered (some p) o = o ≡ some p
IsRecovered none none = Unit
IsRecovered none (some q) = confirmed q ≡ false

put_checked-IsRecovered :
    (o : Option PlanError) (f : StoreFaults) (x : State) (now : Time) (s : Store)
    → s.plan ≡ none
    → IsRecovered none (put_checked o f (record (plan_from x) { updated_at = now }) s).0.plan
unfolding stored confirmed
put_checked-IsRecovered (some e) f x now s h = rw h tt
put_checked-IsRecovered none f x now s h = elim (Bool-cases f.put) [
  | inl e ↦ simp e (rw h tt)
  | inr e ↦ simp e refl
]

same-IsRecovered : (o : Option Plan) → o ≡ none → IsRecovered none o
same-IsRecovered none h = tt
same-IsRecovered (some p) h = cc

from-IsRecovered :
    (f : StoreFaults) (answer : Result ServerError State) (now : Time) (s : Store)
    (r : Result PlanFault Plan)
    → s.plan ≡ none
    → IsRecovered none (recover_from f answer now s r).plan
unfolding put
from-IsRecovered f answer now s (ok p) h = same-IsRecovered s.plan h
from-IsRecovered f (err e) now s (err no_plan) h = same-IsRecovered s.plan h
from-IsRecovered f (ok x) now s (err no_plan) h =
    put_checked-IsRecovered (validate (plan_from x)) f x now s h
from-IsRecovered f answer now s (err store_failed) h = same-IsRecovered s.plan h
from-IsRecovered f answer now s (err (invalid e)) h = same-IsRecovered s.plan h

recover-IsRecovered :
    (f : StoreFaults) (available : Bool) (answer : Result Text State) (now : Time) (s : Store)
    → s.plan ≡ none
    → IsRecovered none (recover_plan f available answer now s).plan
unfolding recover_plan
recover-IsRecovered f true answer now s h = from-IsRecovered f (state true answer) now s (get f s) h
recover-IsRecovered f false answer now s h = same-IsRecovered s.plan h

unconfirmed-idle :
    (cal : Calendar) (metered unread : Bool) (r : Runner) (now : Time) (o : Option Plan)
    → IsRecovered none o
    → maybe_run cal metered unread r now (or_no_plan o) ≡ none
unfolding maybe_run
unconfirmed-idle cal metered unread r now none h = refl
unconfirmed-idle cal metered unread r now (some q) h = elim (Bool-cases q.paused) [
  | inl e ↦ simp e refl
  | inr e ↦ simp e (rw h refl)
]

kept_plan :
    (f : StoreFaults) (answer : Result ServerError State) (now : Time) (s : Store) (p : Plan)
    → s.plan ≡ some p
    → recover_from f answer now s (get f s) ≡ s
unfolding get
kept_plan f answer now s p h = elim (Bool-cases f.get) [
  | inl e ↦ simp e refl
  | inr e ↦ simp (e, h) refl
]

default-valid : Schedule.validate default_schedule ≡ none
unfolding Schedule.validate default_schedule
default-valid =
    unfold Schedule.parse_time_of_day in
    unfold sion_backup.Prelude.Text.cut in
    unfold sion_backup.Prelude.Text.atoi in unfold sion_backup.Prelude.Text.trim_space in refl

plan_from-valid : (x : State) → usable x ≡ true → validate (plan_from x) ≡ none
unfolding validate usable
plan_from-valid x h = elim (Bool-cases (is_empty x.node_id)) [
  | inl e ↦ absurd (ground arith)
  | inr e ↦ elim (Bool-cases (is_empty x.repository_url)) [
    | inl g ↦ absurd (ground arith)
    | inr g ↦ rw (e, g, default-valid) refl
  ]
]

-- From a store with this plan: the store is as it was, or whatever plan there is now starts nothing.
abbrev pub IsQuiet : Store → Store → Option Plan → Type 0
IsQuiet s t (some p) = t ≡ s
IsQuiet s t none =
    (g : StoreFaults) (cal : Calendar) (metered unread : Bool) (r : Runner) (now : Time)
    → maybe_run cal metered unread r now (get g t) ≡ none

idle : (t : Store) → IsRecovered none t.plan → IsQuiet t t none
unfolding get
idle t h g cal metered unread r now = elim (Bool-cases g.get) [
  | inl e ↦ simp e (unfold maybe_run in refl)
  | inr e ↦ simp e (unconfirmed-idle cal metered unread r now t.plan h)
]

quiet_by :
    (f : StoreFaults) (available : Bool) (answer : Result Text State) (now : Time) (s : Store)
    (o : Option Plan)
    → s.plan ≡ o
    → IsQuiet s (recover_plan f available answer now s) o
quiet_by f available answer now s none h =
    idle (recover_plan f available answer now s) (recover-IsRecovered f available answer now s h)
quiet_by f true answer now s (some p) h =
    unfold recover_plan in kept_plan f (state true answer) now s p h
quiet_by f false answer now s (some p) h = unfold recover_plan in refl

-- Recovering a lost plan decides nothing: a store that has a plan stays as it is, whether or not it can be
-- read; and with whatever the server said put into one that had none, no scheduled backup starts,
-- whenever the daemon asks.
pub recover_plan-IsQuiet :
    (f : StoreFaults) (available : Bool) (answer : Result Text State) (now : Time) (s : Store)
    → IsQuiet s (recover_plan f available answer now s) s.plan
recover_plan-IsQuiet f available answer now s = quiet_by f available answer now s s.plan refl

-- A store that is read and written.
abbrev pub IsWilling : StoreFaults → Type 0
IsWilling f = (f.get ≡ false) × (f.put ≡ false)

put_works :
    (o : Option PlanError) (f : StoreFaults) (p : Plan) (s : Store)
    → o ≡ none
    → f.put ≡ false
    → (put_checked o f p s).0.plan ≡ some (stored p)
put_works none f p s h g = simp g refl
put_works (some e) f p s h g = cc

read_back :
    (f : StoreFaults) (s : Store) (o : Option Plan)
    → f.get ≡ false
    → s.plan ≡ o
    → get f s ≡ or_no_plan o
unfolding get
read_back f s o g h = simp (g, h) refl

asks : (x : State) → usable x ≡ true → state true (ok x) ≡ ok x
unfolding state
asks x u = rw u refl

puts :
    (f : StoreFaults) (x : State) (now : Time) (s : Store)
    → f.get ≡ false
    → usable x ≡ true
    → s.plan ≡ none
    → recover_plan f true (ok x) now s ≡ (put f (plan_from x) now s).0
unfolding recover_plan
puts f x now s g u n = rw (read_back f s none g n, asks x u) refl

-- The repair works: where there was no plan and the server's answer names a node and a repository, the plan
-- that is read afterwards is one of that node and that repository, with no folders, that passes
-- Validate.
pub recover_plan_restores :
    (f : StoreFaults) (x : State) (now : Time) (s : Store)
    → IsWilling f
    → usable x ≡ true
    → s.plan ≡ none
    → (q : Plan) × (get f (recover_plan f true (ok x) now s) ≡ ok q)
      × (q.node_id ≡ x.node_id)
      × (q.repository ≡ x.repository_url)
      × (q.targets ≡ [])
      × (validate q ≡ none)
unfolding put
recover_plan_restores f x now s (g, p) u n =
    let v = plan_from-valid x u in
    (
      stored (record (plan_from x) { updated_at = now }),
      rw (puts f x now s g u n) (
          read_back f (put f (plan_from x) now s).0
            (some (stored (record (plan_from x) { updated_at = now }))) g
            (put_works (validate (plan_from x)) f (record (plan_from x) { updated_at = now }) s v
              p)),
      unfold stored in refl,
      unfold stored in refl,
      unfold stored in refl,
      validate-stored (record (plan_from x) { updated_at = now }) (unfold validate in v),
    )
