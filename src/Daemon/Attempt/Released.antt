-- ===== src/Daemon/Attempt/Released.antt =====
-- cmd/sion-backup/daemon.go, rotate.go: when the server is asked to let go of the bucket before.
use sion_backup.Prelude.{
  ℕ, true, Option, none, some, List, [], ◌∷◌, ◌++◌, ◌⊎◌, ◌≡◌, refl, sym, ap, ◌∙◌, inl, inr, arith,
  Bool-cases, pos,
}
use sion_backup.Prelude.Text.{Text, text_eq_iff}
use sion_backup.Prelude.Time.{Time}
use sion_backup.Prelude.Result.{Result, ok, err}
use sion_backup.Restic.{ProcessEnd, Summary, Failure, backup}
use sion_backup.Restic.Command.{Repository}
use sion_backup.Restic.Ops.{EnsureError}
use sion_backup.Plan.Record.{Plan, PlanError, runnable}
use sion_backup.Plan.Measurement.{Measurement}
use sion_backup.Credentials.ForRun.{for_run_valid}
use sion_backup.Credentials.{Set, CredentialError, for_run, repository}
use sion_backup.Backup.Run.{
  Run, Outcome, success, degraded, incomplete, unverified, failed, cancelled,
}
use sion_backup.Backup.Execute.{World, execute}
use sion_backup.Backup.Execute.Verdict.{Verdict, execute-Verdict, all_targets}
use sion_backup.Backup.Store.Kept.{IsHistory}
use sion_backup.Backup.Runner.{
  Runner, Request, RunEnd, started_run, already_running, not_opened, not_closed, closed, run,
}
use sion_backup.Backup.Runner.Recorded.{RunLeaves, run-RunLeaves, executed}
use sion_backup.Fleet.{Reply, landed, rejected, unreachable, event_for}
use sion_backup.Daemon.Opening.{open_repository}
use sion_backup.Daemon.Attempt.Starting.{run_backup}
use sion_backup.Daemon.Attempt.Following
use sion_backup.Daemon.Attempt.Starting
use sion_backup.Daemon.Attempt.Steps.{after_snapshot-Same}
use sion_backup.Daemon.Attempt.{
  Daemon, Notice, Circumstances, may_release, state_cutting_over, started, finished, start_event,
  moved, moved_store, request,
}

-- Only the outcomes that rest on bytes read back are verified.
verdict_read_back :
    (w : World) (b : Summary × Option Failure) (r : Run) (o : Outcome)
    → Verdict w b r o
    → r.verified ≡ true
    → (w.restored ≡ some w.nonce) × (w.stop ≡ none)
verdict_read_back w (s, e) r success v h = (v.1, v.4)
verdict_read_back w (s, e) r degraded v h = (v.1, v.4)
verdict_read_back w (s, e) r incomplete v h = (v.1, v.3)
verdict_read_back w (s, e) r unverified v h = absurd (cc)
verdict_read_back w (s, e) r failed v h = absurd (cc)
verdict_read_back w (s, e) r cancelled v h = absurd (cc)

executed_read_back :
    (w : World) (dir : Text) (q : Request) (t0 t1 : Time) (i : ℕ) (r : Run)
    → r ≡ executed w dir q t0 t1 i
    → r.verified ≡ true
    → (w.restored ≡ some w.nonce) × (w.stop ≡ none)
executed_read_back w dir q t0 t1 i r e h =
    let r0 = record (started_run q t0) { id = i } in
    verdict_read_back w (backup w.windows w.process (all_targets q.options dir))
      (execute w q.options dir r0) (execute w q.options dir r0).outcome
      (execute-Verdict w q.options dir r0 refl refl) (sym (ap (λ x. x.verified) e) ∙ h)

may_release-verified :
    (set : Set) (r : Run)
    → may_release set r ≡ true
    → (r.verified ≡ true) × (set.repository_state ≡ state_cutting_over)
may_release-verified set r h = ground (arith, text_eq_iff set.repository_state state_cutting_over)

-- Nothing was added, or one request that rests on something.
abbrev pub ReleasedWell : (Text → Type 0) → List Text → List Text → Type 0
ReleasedWell P was now = (now ≡ was) ⊎ ((url : Text) × (now ≡ was ++ url ∷ []) × P url)

weaken-ReleasedWell :
    {P Q : Text → Type 0} {was now : List Text}
    → ((url : Text) → P url → Q url)
    → ReleasedWell P was now
    → ReleasedWell Q was now
weaken-ReleasedWell f (inl e) = inl e
weaken-ReleasedWell f (inr (url, e, p)) = inr (url, e, f url p)

module _ {S V : Type 0} (exec : List Text → S → S × ProcessEnd) (during : Request → S → S × World)
    (measure_restic : Repository → S → S × Option Measurement) (send : V → Notice → V × Reply)
    (c : Circumstances) where
  -- What a request to release the bucket before `url` rests on: the server's answer to this attempt,
  -- and a run from a world `s` whose verification file came back.
  abbrev pub EarnedBy : Set → Request → S → Text → Type 0
  EarnedBy set q s url =
      (c.answer ≡ some set)
      × (set.repository_state ≡ state_cutting_over)
      × (url ≡ set.repository_url)
      × ((during q s).1.restored ≡ some (during q s).1.nonce)
      × ((during q s).1.stop ≡ none)

  -- The run is the one of this attempt, after the repository was opened.
  abbrev pub IsEarned : Plan → Daemon S V → Text → Type 0
  IsEarned p d url =
      (set : Set) × EarnedBy set (request c (moved set p) d.runner.history)
        (open_repository exec set.expect_empty
          (repository set.credentials set.repository_url p.pack_size_mib p.read_concurrency)
          d.world).0
        url

  release-ReleasedWell :
      (set : Set) (q : Request) (s0 : S) (url : Text) (r : Run) (d : Daemon S V) (was : List Text)
      → c.answer ≡ some set
      → url ≡ set.repository_url
      → (r.verified ≡ true
          → ((during q s0).1.restored ≡ some (during q s0).1.nonce) × ((during q s0).1.stop ≡ none))
      → d.released ≡ was
      → ReleasedWell
          (EarnedBy set q s0)
          was
          (Following.release exec measure_restic send c set url r d).released
  release-ReleasedWell set q s0 url r d was a u h k = elim (Bool-cases (may_release set r)) [
    | inl e ↦
        let (v, st) = may_release-verified set r e in
        let (b, n) = h v in rw e (inr (url, ap (λ x. x ++ url ∷ []) k, (a, st, u, b, n)))
    | inr e ↦ rw e (inl k)
  ]

  told-released :
      (r : Run) (d : Daemon S V) (x : V × Reply)
      → (Following.told exec measure_restic send c r d x).released ≡ d.released
  told-released r d (v, landed) = refl
  told-released r d (v, rejected) = refl
  told-released r d (v, unreachable) = refl

  after_run-ReleasedWell :
      (set : Set) (repo : Repository) (q : Request) (s0 : S) (r : Run) (d : Daemon S V)
      → c.answer ≡ some set
      → q.repository_url ≡ set.repository_url
      → (r.verified ≡ true
          → ((during q s0).1.restored ≡ some (during q s0).1.nonce) × ((during q s0).1.stop ≡ none))
      → ReleasedWell
          (EarnedBy set q s0)
          d.released
          (Following.after_run exec measure_restic send c set repo q.repository_url r d).released
  after_run-ReleasedWell set repo q s0 r d a u h =
      let x = send d.server (finished (event_for r)) in
      let d1 = Following.told exec measure_restic send c r d x in
      release-ReleasedWell set q s0 q.repository_url r
        (Following.after_snapshot exec measure_restic send c repo q.repository_url r d1) d.released
        a u h
        ((after_snapshot-Same exec measure_restic send c repo q.repository_url r d1).1
          ∙ told-released r d x)

  ran-ReleasedWell :
      (set : Set) (repo : Repository) (q : Request) (s s0 : S) (d : Daemon S V)
      (x : Runner × RunEnd)
      → c.answer ≡ some set
      → q.repository_url ≡ set.repository_url
      → RunLeaves (during q s0).1 c.verify_dir q c.begins_at c.ends_at d.runner x
      → ReleasedWell
          (EarnedBy set q s0)
          d.released
          (Starting.ran exec during measure_restic send c set repo q s d x).0.released
  ran-ReleasedWell set repo q s s0 d (b, already_running) a u l = inl refl
  ran-ReleasedWell set repo q s s0 d (b, not_opened) a u l = inl refl
  ran-ReleasedWell set repo q s s0 d (b, not_closed r) a u l = inl refl
  ran-ReleasedWell set repo q s s0 d (b, closed r) a u (i, o, e, h) =
      after_run-ReleasedWell set repo q s0 r (record d { world = s; runner = b }) a u
        (executed_read_back (during q s0).1 c.verify_dir q c.begins_at c.ends_at
          d.runner.history.next_id r e)

  opened-ReleasedWell :
      (p : Plan) (set : Set) (repo : Repository) (q : Request) (d : Daemon S V)
      (x : S × Option EnsureError)
      → IsHistory d.runner.history
      → c.answer ≡ some set
      → q.repository_url ≡ set.repository_url
      → ReleasedWell
          (EarnedBy set q x.0)
          d.released
          (Starting.opened exec during measure_restic send c p set repo q d x).0.released
  opened-ReleasedWell p set repo q d (s, some e) k a u = inl refl
  opened-ReleasedWell p set repo q d (s, none) k a u =
      ran-ReleasedWell set repo q (during q s).0 s
        (record d {
          world = s;
          server = (send d.server (started (start_event p c.run_uuid q.seeding c.begins_at))).0;
        })
        (run c.run_faults (during q s).1 c.verify_dir q c.begins_at c.ends_at d.runner) a u
        (run-RunLeaves c.run_faults (during q s).1 c.verify_dir q c.begins_at c.ends_at d.runner k)

  granted-ReleasedWell :
      (p : Plan) (d : Daemon S V) (x : Result CredentialError Set)
      → IsHistory d.runner.history
      → for_run c.enrolled c.answer ≡ x
      → ReleasedWell
          (IsEarned p d)
          d.released
          (Starting.granted exec during measure_restic send c p d x).0.released
  granted-ReleasedWell p d (err e) k h = inl refl
  granted-ReleasedWell p d (ok set) k h =
      let repo = repository set.credentials set.repository_url p.pack_size_mib p.read_concurrency in
      weaken-ReleasedWell (λ url e. (set, e))
        (opened-ReleasedWell (moved set p) set repo (request c (moved set p) d.runner.history)
          (record d { store = moved_store c set p d.store })
          (open_repository exec set.expect_empty repo d.world) k
          (for_run_valid c.enrolled c.answer set (pos 0) (pos 0) h).0 refl)

  permitted-ReleasedWell :
      (p : Plan) (d : Daemon S V) (x : Option PlanError) (r : Option Text)
      → IsHistory d.runner.history
      → r ≡ c.restic_error
      → ReleasedWell
          (IsEarned p d)
          d.released
          (Starting.permitted exec during measure_restic send c p d x).0.released
  permitted-ReleasedWell p d (some e) r k h = inl refl
  permitted-ReleasedWell p d none (some e) k h = simp (sym h) (inl refl)
  permitted-ReleasedWell p d none none k h =
      simp (sym h) (granted-ReleasedWell p d (for_run c.enrolled c.answer) k refl)

  -- With a history whose ids descend from below the next one: an attempt asks the server to let go of
  -- the bucket before at most once, naming the repository that the server named in its answer to this
  -- attempt, and only if that answer says that the machine is cutting over to it and the verification
  -- file of the run came back from it, with nobody having stopped the run.
  pub run_backup-ReleasedWell :
      (p : Plan) (d : Daemon S V)
      → IsHistory d.runner.history
      → ReleasedWell
          (IsEarned p d)
          d.released
          (run_backup exec during measure_restic send c p d).0.released
  unfolding run_backup
  run_backup-ReleasedWell p d k = permitted-ReleasedWell p d (runnable p) c.restic_error k refl
