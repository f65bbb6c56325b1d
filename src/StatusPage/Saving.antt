-- ===== src/StatusPage/Saving.antt =====
-- setup.go: what sending the set-up form leaves, and when it starts a backup.
use sion_backup.Prelude.{
  ◌≤◌, Bool, true, false, Option, none, some, List, [], ◌∷◌, ℤ, ◌⊎◌, inl, inr, ◌≡◌, refl, ap, sym,
  ◌∙◌, arith, Bool-cases, subst,
}
use sion_backup.Prelude.Text.{Text}
use sion_backup.Prelude.Result.{Result, ok, err}
use sion_backup.Prelude.Time.{Time, second}
use sion_backup.Plan.Schedule.{Schedule, is_nil}
use sion_backup.Plan.Record.{Plan, validate, confirmed}
use sion_backup.Plan.Store.{Store, StoreFaults, stored}
use sion_backup.Plan.Business.{PlanFault, no_plan, store_failed, invalid, get, put, confirm}
use sion_backup.Plan.Business.Confirming.{ConfirmEnds, confirm-ConfirmEnds, get_ok, approved}
use sion_backup.Plan.Business.Putting.{PutEnds, put-PutEnds}
use sion_backup.Plan.Business.Stored.{validate-stored, validate-dates}
use sion_backup.Survey.{Choice}
use sion_backup.Survey.Folders.{Trouble}
use sion_backup.StatusPage.{
  SetupForm, Problem, no_folders, no_such_choice, bad_limit, no_daily_time, no_times,
  unusable_folders, not_stored, Applied, custom_targets, chosen_targets, limit_of, schedule_of,
  with_schedule, with_limit, with_targets, is_custom, apply_setup, roots_of, lines_of, Page,
  redirect, shown, enrol_first, error_page, confirmed_then, put_then, store_plan, answered,
  stored_then, confirms, with_plan, save_setup, effective_excludes, is_on,
}

-- The form changes neither the node nor the repository.
abbrev pub SamePlace : Plan → Plan → Type 0
SamePlace p q = (q.node_id ≡ p.node_id) × (q.repository ≡ p.repository)

-- The plan that the form made, as it is stored, and as it is stored once it was confirmed too.
abbrev pub written : Time → Plan → Plan
written now q = stored (record q { updated_at = now })

abbrev pub agreed : Time → Plan → Plan
agreed now q = stored (approved (written now q) now)

-- A form was taken: what is stored is what it made of the plan from before, which is a plan of the same node
-- and repository that passes Validate. `made`: what the form makes of a plan.
abbrev pub IsTaken : (Plan → Applied) → (Plan → Plan) → Option Plan → Option Plan → Type 0
IsTaken made final before after =
    (p : Plan) × (q : Plan) × (before ≡ some p)
    × (made p ≡ (q, none))
    × (after ≡ some (final q))
    × SamePlace p (final q)
    × (validate (final q) ≡ none)

-- How the form is answered. A run is started only by a confirmation, of a plan that is stored as confirmed
-- and has folders.
abbrev pub SetupEnds :
    {W : Type 0} → (W → W) → (Plan → Applied) → Time → Bool → Store → W → Store × W × Page → Type 0
SetupEnds start_run made now confirming s w (t, v, enrol_first) = (t ≡ s) × (v ≡ w)
SetupEnds start_run made now confirming s w (t, v, error_page) = (t ≡ s) × (v ≡ w)
SetupEnds start_run made now confirming s w (t, v, shown p (not_stored e)) =
    (v ≡ w) × ((t ≡ s) ⊎ (confirming ≡ true) × IsTaken made (written now) s.plan t.plan)
SetupEnds start_run made now confirming s w (t, v, shown p e) =
    (t ≡ s) × (v ≡ w) × ((q : Plan) × (s.plan ≡ some q) × (made q ≡ (p, some e)))
SetupEnds start_run made now true s w (t, v, redirect u) =
    IsTaken made (agreed now) s.plan t.plan
    × (v ≡ start_run w)
    × ((q : Plan) × (t.plan ≡ some q) × (confirmed q ≡ true) × (is_nil q.targets ≡ false))
SetupEnds start_run made now false s w (t, v, redirect u) =
    IsTaken made (written now) s.plan t.plan × (v ≡ w)

limited-SamePlace :
    (f : SetupForm) (p : Plan) (r : Result Problem ℤ) → SamePlace p (with_limit f p r).0
limited-SamePlace f p (err e) = (refl, refl)
limited-SamePlace f p (ok n) = scheduled (schedule_of p.schedule f)
  where
    scheduled :
        (r : Result Problem Schedule)
        → SamePlace p (with_schedule (record p { skip_larger_than_gb = n }) r).0
    scheduled (err e) = (refl, refl)
    scheduled (ok s) = (refl, refl)

with_targets-SamePlace :
    (junk : List Text) (f : SetupForm) (p : Plan) (a : Applied)
    → SamePlace p a.0
    → SamePlace p (with_targets junk f a).0
with_targets-SamePlace junk f p (q, some e) h = h
with_targets-SamePlace junk f p (q, none) (n, r) =
    let changed : Plan = record q {
      style = f.style;
      excludes = effective_excludes junk q.excludes (is_on f.junk);
      skip_on_metered = is_on f.skip_on_metered;
    } in
    let (a, b) = limited-SamePlace f changed (limit_of f.skip_larger_than_gb) in (a ∙ n, b ∙ r)

custom-SamePlace :
    (check : List Text → List Trouble) (ts : List Text) (p : Plan)
    → SamePlace p (custom_targets check ts p).0
custom-SamePlace check [] p = (refl, refl)
custom-SamePlace check (t ∷ ts) p = (refl, refl)

chosen-SamePlace : (o : Option (List Text)) (p : Plan) → SamePlace p (chosen_targets o p).0
chosen-SamePlace none p = (refl, refl)
chosen-SamePlace (some r) p = (refl, refl)

confirmed-stored :
    (p : Plan) (now : Time) → second ≤ now → confirmed (stored (approved p now)) ≡ true
unfolding confirmed stored
confirmed-stored p now h = ground arith

some_plan : (p q : Plan) → some p ≡ some q → p ≡ q
some_plan p q e = cc

stored-SamePlace :
    (p q : Plan) (now : Time) → SamePlace p q → SamePlace p (stored (record q { updated_at = now }))
unfolding stored
stored-SamePlace p q now h = h

approved-SamePlace :
    (p q : Plan) (now : Time) → SamePlace p q → SamePlace p (stored (approved q now))
unfolding stored
approved-SamePlace p q now h = h

approved-targets : (q : Plan) (now : Time) → (stored (approved q now)).targets ≡ q.targets
unfolding stored
approved-targets q now = refl

written-valid : (q : Plan) (now : Time) → validate q ≡ none → validate (written now q) ≡ none
written-valid q now v = validate-stored (record q { updated_at = now }) (unfold validate in v)

module _ {W : Type 0} (start_run : W → W) (made : Plan → Applied) (now : Time) where
  abbrev Ends : Bool → Store → W → Store × W × Page → Type 0
  Ends confirming s w r = SetupEnds start_run made now confirming s w r

  confirmed-SetupEnds :
      (p q : Plan) (s t : Store) (w : W) (x : Store × Option PlanFault)
      → second ≤ now
      → s.plan ≡ some p
      → made p ≡ (q, none)
      → SamePlace p q
      → validate q ≡ none
      → t.plan ≡ some (written now q)
      → ConfirmEnds t now x
      → Ends true s w (answered start_run q true (confirmed_then start_run w x))
  confirmed-SetupEnds p q s t w (u, some e) n h m k v g c = (
    refl,
    inr (
      refl,
      (
        p,
        q,
        h,
        m,
        ap (λ (y : Store). y.plan) c ∙ g,
        stored-SamePlace p q now k,
        written-valid q now v,
      ),
    ),
  )
  confirmed-SetupEnds p q s t w (u, none) n h m k v g (r, e, a, b, c) =
      let same : r ≡ written now q = sym (some_plan (written now q) r (sym g ∙ e)) in
      let place = approved-SamePlace p (written now q) now (stored-SamePlace p q now k) in
      let held : u.plan ≡ some (stored (approved r now)) = ap (λ (y : Store). y.plan) c in
      let final = ap (λ (y : Plan). stored (approved y now)) same in
      (
        (
          p,
          q,
          h,
          m,
          held ∙ ap some final,
          place,
          subst (λ (y : Plan). validate y ≡ none) final
              (validate-stored (approved r now) (validate-dates r now now a)),
        ),
        refl,
        (
          stored (approved r now),
          held,
          confirmed-stored r now n,
          ap is_nil (approved-targets r now) ∙ b,
        ),
      )

  put-SetupEnds :
      (confirming : Bool) (g : StoreFaults) (p q : Plan) (s : Store) (w : W)
      (x : Store × Option PlanFault)
      → second ≤ now
      → s.plan ≡ some p
      → made p ≡ (q, none)
      → SamePlace p q
      → PutEnds q now s x
      → Ends confirming s w
          (answered start_run q confirming (put_then start_run g confirming now w x))
  put-SetupEnds confirming g p q s w (t, some e) n h m k c = (refl, inl c)
  put-SetupEnds true g p q s w (t, none) n h m k (v, c) =
      confirmed-SetupEnds p q s t w (confirm g now t) n h m k v (ap (λ (y : Store). y.plan) c)
        (confirm-ConfirmEnds g now t)
  put-SetupEnds false g p q s w (t, none) n h m k (v, c) = (
    (p, q, h, m, ap (λ (y : Store). y.plan) c, stored-SamePlace p q now k, written-valid q now v),
    refl,
  )

  shown-SetupEnds :
      (confirming : Bool) (s : Store) (w : W) (p q : Plan) (e : Problem)
      → s.plan ≡ some p
      → made p ≡ (q, some e)
      → Ends confirming s w (s, w, shown q e)
  shown-SetupEnds confirming s w p q no_folders h m = (refl, refl, (p, h, m))
  shown-SetupEnds confirming s w p q no_such_choice h m = (refl, refl, (p, h, m))
  shown-SetupEnds confirming s w p q bad_limit h m = (refl, refl, (p, h, m))
  shown-SetupEnds confirming s w p q no_daily_time h m = (refl, refl, (p, h, m))
  shown-SetupEnds confirming s w p q no_times h m = (refl, refl, (p, h, m))
  shown-SetupEnds confirming s w p q (unusable_folders ts) h m = (refl, refl, (p, h, m))
  shown-SetupEnds confirming s w p q (not_stored e) h m = (refl, inl refl)

  applied-SetupEnds :
      (confirming : Bool) (f g : StoreFaults) (p : Plan) (s : Store) (w : W) (a : Applied)
      → second ≤ now
      → s.plan ≡ some p
      → made p ≡ a
      → SamePlace p a.0
      → Ends confirming s w (stored_then start_run f g confirming now s w a)
  unfolding store_plan
  applied-SetupEnds confirming f g p s w (q, some e) n h m k =
      shown-SetupEnds confirming s w p q e h m
  applied-SetupEnds confirming f g p s w (q, none) n h m k =
      put-SetupEnds confirming g p q s w (put f q now s) n h m k (put-PutEnds f q now s)

module _ (choices : List Choice) (check : List Text → List Trouble) (junk : List Text) where
  apply_setup-SamePlace :
      (p : Plan) (f : SetupForm) → SamePlace p (apply_setup choices check junk p f).0
  unfolding apply_setup
  apply_setup-SamePlace p f = elim (Bool-cases (is_custom f)) [
    | inl e ↦ rw e (
        with_targets-SamePlace junk f p (custom_targets check (lines_of f.targets) p)
          (custom-SamePlace check (lines_of f.targets) p))
    | inr e ↦ rw e (
        with_targets-SamePlace junk f p (chosen_targets (roots_of f.style choices) p)
          (chosen-SamePlace (roots_of f.style choices) p))
  ]

  module _ {W : Type 0} (start_run : W → W) where
    with_plan-SetupEnds :
        (f g : StoreFaults) (form : SetupForm) (now : Time) (s : Store) (w : W)
        (r : Result PlanFault Plan)
        → second ≤ now
        → get f s ≡ r
        → SetupEnds start_run
            (λ p. apply_setup choices check junk p form)
            now
            (confirms form)
            s
            w
            (with_plan choices check junk start_run f g form now s w r)
    with_plan-SetupEnds f g form now s w (err no_plan) n h = (refl, refl)
    with_plan-SetupEnds f g form now s w (err store_failed) n h = (refl, refl)
    with_plan-SetupEnds f g form now s w (err (invalid e)) n h = (refl, refl)
    with_plan-SetupEnds f g form now s w (ok p) n h =
        applied-SetupEnds start_run (λ q. apply_setup choices check junk q form) now (confirms form)
          f g p s w (apply_setup choices check junk p form) n (get_ok f s p h) refl
          (apply_setup-SamePlace p form)

-- The set-up form starts a backup in one case only: it asked for a confirmation, and then what is stored is
-- the plan that the form made of the one from before, confirmed now, with folders. Whatever the form
-- says and whatever the store refuses: a plan that is stored by it is the one that the form made, of
-- the node and the repository from before, and passes Validate; where the form is shown again for a
-- mistake of its own, or there is no plan, nothing has changed; and where it is shown again because
-- the store refused a call, either nothing has changed or the plan is stored and only the
-- confirmation is missing. The clock is past the first second of year 1.
pub save_setup-SetupEnds :
    {W : Type 0} (choices : List Choice) (check : List Text → List Trouble) (junk : List Text)
    (start_run : W → W) (f g : StoreFaults) (form : SetupForm) (now : Time) (s : Store) (w : W)
    → second ≤ now
    → SetupEnds start_run
        (λ p. apply_setup choices check junk p form)
        now
        (confirms form)
        s
        w
        (save_setup choices check junk start_run f g form now s w)
unfolding save_setup
save_setup-SetupEnds choices check junk start_run f g form now s w n =
    with_plan-SetupEnds choices check junk start_run f g form now s w (get f s) n refl
