-- ===== src/Enrolling/Creating.antt =====
-- enroll.go, ensureRepository: when an enrollment creates a repository.
use sion_backup.Prelude.{
  Bool, true, false, Option, none, some, List, [], not, ◌≡◌, inl, inr, refl, Bool-cases,
  Option-cases,
}
use sion_backup.Prelude.Text.{Text}
use sion_backup.Prelude.Result.{Result, ok, err}
use sion_backup.Prelude.Time.{Time}
use sion_backup.Plan.Store.{Store}
use sion_backup.Plan.Business.{PlanFault}
use sion_backup.Restic.{ProcessEnd}
use sion_backup.Restic.Ops.{exists}
use sion_backup.Restic.Ops.Creating.{Sent, HasInit, logged, ensure-creates}
use sion_backup.Token.{TokenDir, SaveError, save}
use sion_backup.Enrolling.{
  ClaimRequest, Enrollment, Answer, ClaimError, Machine, Circumstances, Enrolled, claimed, claim,
  store_plan, ensure_repository, repository_of, planned, wired, saved, kept,
  refuse_second_enrollment, enroll,
}

not-true : (b : Bool) → not b ≡ true → b ≡ false
not-true false h = refl
not-true true h = cc

module _ {R S : Type 0} (exec : List Text → R → R × ProcessEnd)
    (ask : ClaimRequest → S → S × Answer) (say_card : Text → Time → S → S) (c : Circumstances)
    (r : R) where
  -- An init was sent, of this enrollment.
  abbrev pub Created : Enrolled (Sent × R) S → Type 0
  Created x =
      HasInit x.machine.restic.0
      → (e : Enrollment) × (x.enrollment ≡ some e)
        × (e.repository_adopted ≡ false)
        × ((exists exec (repository_of e) r).1 ≡ ok false)

  -- The same machine before restic was sent anything.
  abbrev unasked : Machine (Sent × R) S → Machine (Sent × R) S
  unasked m = record m { restic = ([], r) }

  planned-Created :
      (e : Enrollment) (m : Machine (Sent × R) S) (x : Store × Option PlanFault)
      → Created (planned (logged exec) ask say_card c e (unasked m) x)
  unfolding ensure_repository
  planned-Created e m (s, some y) h = absurd h
  planned-Created e m (s, none) h =
      let (a, b) = (ensure-creates exec (repository_of e) (not e.repository_adopted) r).0 h in
      (e, refl, not-true e.repository_adopted a, b)

  wired-Created :
      (e : Enrollment) (m : Machine (Sent × R) S) (o : Option Text)
      → Created (wired (logged exec) ask say_card c e (unasked m) o)
  wired-Created e m (some x) h = absurd h
  wired-Created e m none h =
      planned-Created e m (store_plan c.store_faults c.seed e c.now m.store) h

  saved-Created :
      (e : Enrollment) (m : Machine (Sent × R) S) (x : TokenDir × Option SaveError)
      → Created (saved (logged exec) ask say_card c e (unasked m) x)
  saved-Created e m (d, some y) h = absurd h
  saved-Created e m (d, none) h =
      wired-Created e (record m { token_dir = d; machine_token = e.machine_token }) c.rewired h

  kept-Created :
      (m : Machine (Sent × R) S) (x : S × Result ClaimError Enrollment)
      → Created (kept (logged exec) ask say_card c (unasked m) x)
  kept-Created m (s, err y) h = absurd h
  kept-Created m (s, ok e) h =
      saved-Created e (record m { server = s }) (save c.token_faults e.machine_token m.token_dir) h

-- An enrollment sends restic an init only if the server did not call the bucket adopted, and only after
-- restic has answered, with the credentials of this very enrollment, that there is no repository
-- there. The list before `r` holds the commands that restic is sent.
pub enroll-creates :
    {R S : Type 0} (exec : List Text → R → R × ProcessEnd) (ask : ClaimRequest → S → S × Answer)
    (say_card : Text → Time → S → S) (c : Circumstances) (q : ClaimRequest)
    (m : Machine (Sent × R) S) (r : R)
    → let x = enroll (logged exec) ask say_card c q (record m { restic = ([], r) }) in
      HasInit x.machine.restic.0
      → (e : Enrollment) × (x.enrollment ≡ some e)
        × (e.repository_adopted ≡ false)
        × ((exists exec (repository_of e) r).1 ≡ ok false)
unfolding enroll claim
enroll-creates exec ask say_card c q m r =
    elim (Bool-cases (refuse_second_enrollment c.force m.machine_token)) [
      | inl g ↦ rw g (λ h. absurd h)
      | inr g ↦ rw g (elim (Option-cases c.fetch_restic) [
        | inr (x, a) ↦ simp a (λ h. absurd h)
        | inl a ↦ simp a (elim (Option-cases c.anonymous_client) [
          | inr (x, b) ↦ simp b (λ h. absurd h)
          | inl b ↦ simp b (
              kept-Created exec ask say_card c r m ((ask q m.server).0, claimed (ask q m.server).1))
        ])
      ])
    ]
