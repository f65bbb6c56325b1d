-- ===== src/Enrolling/Ends.antt =====
-- enroll.go: what an enrollment leaves, however it ends, and when it creates a repository.
use sion_backup.Prelude.{
  true, false, Option, none, some, List, ◌≡◌, inl, inr, refl, ap, arith, Bool-cases, Option-cases,
  subst,
}
use sion_backup.Prelude.Text.{Text}
use sion_backup.Prelude.Result.{Result, ok, err}
use sion_backup.Prelude.Time.{Time}
use sion_backup.Plan.Schedule.{is_nil}
use sion_backup.Plan.Record.{Plan, validate}
use sion_backup.Plan.Store.{Store, StoreFaults, stored}
use sion_backup.Plan.Business.{PlanFault, get, put, or_no_plan}
use sion_backup.Plan.Business.Stored.{validate-stored}
use sion_backup.Plan.Business.Putting.{put-plan}
use sion_backup.Restic.{ProcessEnd}
use sion_backup.Token.{
  TokenDir, TokenFaults, SaveError, save, load, is_plain, SaveLeaves, save-SaveLeaves,
}
use sion_backup.Enrolling.{
  ClaimRequest, Enrollment, Answer, answer, not_found, conflict, bad_request, no_answer, ClaimError,
  Machine, EnrollError, already_enrolled, no_restic, bad_server, not_wired, not_claimed, not_saved,
  not_planned, Circumstances, Enrolled, checked, claimed, claim, enrolled_plan, store_over,
  store_plan, planned, wired, saved, kept, refuse_second_enrollment, enroll, zero_plan,
}

abbrev plan_or_zero : Option Plan → Plan
plan_or_zero none = zero_plan
plan_or_zero (some p) = p

-- What is stored is the enrolled plan, and it passes Validate.
abbrev pub IsStored :
    StoreFaults → Result Text Plan → Enrollment → Time → Plan → Store × Option PlanFault → Type 0
IsStored f seed e now p (s, some x) = Unit
IsStored f seed e now p (s, none) =
    (validate (enrolled_plan seed e p) ≡ none)
    × (s.plan ≡ some (stored (record (enrolled_plan seed e p) { updated_at = now })))

put-IsStored :
    (f : StoreFaults) (seed : Result Text Plan) (e : Enrollment) (now : Time) (p : Plan) (s : Store)
    (x : Store × Option PlanFault)
    → put f (enrolled_plan seed e p) now s ≡ x
    → IsStored f seed e now p x
put-IsStored f seed e now p s (t, some y) h = tt
put-IsStored f seed e now p s (t, none) h =
    let (v, k) =
      put-plan f (enrolled_plan seed e p) now s (ap (λ (z : Store × Option PlanFault). z.1) h) in
    (
      v,
      subst
          (λ (z : Store × Option PlanFault).
            z.0.plan ≡ some (stored (record (enrolled_plan seed e p) { updated_at = now })))
          h k,
    )

over-IsStored :
    (f : StoreFaults) (seed : Result Text Plan) (e : Enrollment) (now : Time) (s : Store)
    (o : Option Plan)
    → IsStored f seed e now (plan_or_zero o) (store_over f seed e now s (or_no_plan o))
over-IsStored f seed e now s none =
    put-IsStored f seed e now zero_plan s (put f (enrolled_plan seed e zero_plan) now s) refl
over-IsStored f seed e now s (some p) =
    put-IsStored f seed e now p s (put f (enrolled_plan seed e p) now s) refl

store_plan-IsStored :
    (f : StoreFaults) (seed : Result Text Plan) (e : Enrollment) (now : Time) (s : Store)
    → IsStored f seed e now (plan_or_zero s.plan) (store_plan f seed e now s)
unfolding store_plan get
store_plan-IsStored f seed e now s = elim (Bool-cases f.get) [
  | inl g ↦ simp g tt
  | inr g ↦ simp g (over-IsStored f seed e now s s.plan)
]

-- The plan of an enrolled machine, over the one from before.
abbrev pub IsEnrolledPlan : Enrollment → Plan → Plan → Type 0
IsEnrolledPlan e p q =
    (q.node_id ≡ e.node_id)
    × (q.repository ≡ e.repository_url)
    × (is_nil p.targets ≡ false → q.targets ≡ p.targets)
    × (is_nil p.targets ≡ false → q.excludes ≡ p.excludes)
    × (validate q ≡ none)

enrolled_plan-parts :
    (seed : Result Text Plan) (e : Enrollment) (p : Plan)
    → ((enrolled_plan seed e p).node_id ≡ e.node_id)
      × ((enrolled_plan seed e p).repository ≡ e.repository_url)
      × (is_nil p.targets ≡ false → (enrolled_plan seed e p).targets ≡ p.targets)
      × (is_nil p.targets ≡ false → (enrolled_plan seed e p).excludes ≡ p.excludes)
unfolding enrolled_plan
enrolled_plan-parts (err x) e p = (ground arith, ground arith, ground arith, ground arith)
enrolled_plan-parts (ok s) e p = (ground arith, ground arith, ground arith, ground arith)

-- What the machine is like after an enrollment with this error, or with this enrollment and none.
abbrev pub Leaves :
    {R S : Type 0} → Machine R S → Machine R S → Option Enrollment → Option EnrollError → Type 0
Leaves m t o (some already_enrolled) = t ≡ m
Leaves m t o (some (no_restic x)) = t ≡ m
Leaves m t o (some (bad_server x)) = t ≡ m
Leaves m t o (some (not_claimed x)) = t ≡ record m { server = t.server }
Leaves m t o (some (not_saved x)) = t ≡ record m { server = t.server; token_dir = t.token_dir }
Leaves m t o (some (not_wired x)) = (t.store ≡ m.store) × (t.restic ≡ m.restic)
Leaves m t o (some (not_planned x)) = t.restic ≡ m.restic
Leaves m t none none = ⊥
Leaves m t (some e) none =
    (t.machine_token ≡ e.machine_token)
    × ((f : TokenFaults) → f.read ≡ false → load f t.token_dir ≡ ok e.machine_token)
    × ((q : Plan) × (t.store.plan ≡ some q) × IsEnrolledPlan e (plan_or_zero m.store.plan) q)

module _ {R S : Type 0} (exec : List Text → R → R × ProcessEnd)
    (ask : ClaimRequest → S → S × Answer) (say_card : Text → Time → S → S) (c : Circumstances) where
  abbrev EnrollLeaves : Machine R S → Enrolled R S → Type 0
  EnrollLeaves m r = Leaves m r.machine r.enrollment r.error

  planned-Leaves :
      (e : Enrollment) (m t : Machine R S) (x : Store × Option PlanFault)
      → t.restic ≡ m.restic
      → t.machine_token ≡ e.machine_token
      → ((f : TokenFaults) → f.read ≡ false → load f t.token_dir ≡ ok e.machine_token)
      → IsStored c.store_faults c.seed e c.now (plan_or_zero m.store.plan) x
      → EnrollLeaves m (planned exec ask say_card c e t x)
  planned-Leaves e m t (s, some y) r k l h = r
  planned-Leaves e m t (s, none) r k l (v, h) =
      let p = plan_or_zero m.store.plan in
      let q = enrolled_plan c.seed e p in
      let (n, u, g, x) = enrolled_plan-parts c.seed e p in
      (
        k,
        l,
        (
          stored (record q { updated_at = c.now }),
          h,
          (
            unfold stored in n,
            unfold stored in u,
            unfold stored in g,
            unfold stored in x,
            validate-stored (record q { updated_at = c.now }) (unfold validate in v),
          ),
        ),
      )

  wired-Leaves :
      (e : Enrollment) (m : Machine R S) (s : S) (d : TokenDir) (o : Option Text)
      → ((f : TokenFaults) → f.read ≡ false → load f d ≡ ok e.machine_token)
      → EnrollLeaves m (
          wired exec ask say_card c e
            (record m { server = s; token_dir = d; machine_token = e.machine_token })
            o)
  wired-Leaves e m s d (some x) k = (refl, refl)
  wired-Leaves e m s d none k =
      planned-Leaves e m (record m { server = s; token_dir = d; machine_token = e.machine_token })
        (store_plan c.store_faults c.seed e c.now m.store) refl refl k
        (store_plan-IsStored c.store_faults c.seed e c.now m.store)

  saved-Leaves :
      (e : Enrollment) (m : Machine R S) (s : S) (x : TokenDir × Option SaveError)
      → SaveLeaves m.token_dir e.machine_token x
      → EnrollLeaves m (saved exec ask say_card c e (record m { server = s }) x)
  saved-Leaves e m s (d, some y) k = refl
  saved-Leaves e m s (d, none) k = wired-Leaves e m s d c.rewired k

  kept-Leaves :
      (m : Machine R S) (s : S) (r : Result ClaimError Enrollment)
      → ((e : Enrollment) → r ≡ ok e → is_plain e.machine_token ≡ true)
      → EnrollLeaves m (kept exec ask say_card c m (s, r))
  kept-Leaves m s (err x) h = refl
  kept-Leaves m s (ok e) h =
      saved-Leaves e m s (save c.token_faults e.machine_token m.token_dir)
        (save-SaveLeaves c.token_faults e.machine_token m.token_dir (h e refl))

claimed-answer : (a : Answer) (e : Enrollment) → claimed a ≡ ok e → a ≡ answer e
claimed-answer (answer x) e h = unfold checked in ground arith
claimed-answer not_found e h = cc
claimed-answer conflict e h = cc
claimed-answer (bad_request b) e h = cc
claimed-answer (no_answer x) e h = cc

-- Whatever goes wrong, an enrollment leaves the machine in a state that its error tells: nothing has changed
-- where the machine had a token already, or where restic or the server's address was the trouble, so
-- the code is not spent; only the server has changed where the claim failed; the plans and the
-- repository are as they were where the token could not be saved, or the client not made; and the
-- repository where the plan could not be stored. With no error the token that the server gave is
-- in its file, from which it can be read, and the stored plan passes Validate, has the node and
-- the repository of the enrollment, and has the folders and patterns from before where there were
-- folders. The server's tokens are not empty and end in no line end.
pub enroll-Leaves :
    {R S : Type 0} (exec : List Text → R → R × ProcessEnd) (ask : ClaimRequest → S → S × Answer)
    (say_card : Text → Time → S → S) (c : Circumstances) (q : ClaimRequest) (m : Machine R S)
    → ((s : S) (e : Enrollment) → (ask q s).1 ≡ answer e → is_plain e.machine_token ≡ true)
    → let r = enroll exec ask say_card c q m in Leaves m r.machine r.enrollment r.error
unfolding enroll claim
enroll-Leaves exec ask say_card c q m h =
    elim (Bool-cases (refuse_second_enrollment c.force m.machine_token)) [
      | inl g ↦ rw g refl
      | inr g ↦ rw g (elim (Option-cases c.fetch_restic) [
        | inr (x, a) ↦ simp a refl
        | inl a ↦ simp a (elim (Option-cases c.anonymous_client) [
          | inr (x, b) ↦ simp b refl
          | inl b ↦ simp b (
              kept-Leaves exec ask say_card c m (ask q m.server).0 (claimed (ask q m.server).1)
                (λ e k. h m.server e (claimed-answer (ask q m.server).1 e k)))
        ])
      ])
    ]
