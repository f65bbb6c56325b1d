-- ===== src/Enrolling.antt =====
-- cmd/sion-backup/enroll.go with business/domain/credential/sources/eumaeuscreds/claim.go: a machine claims a
-- code; cmd/sion-backup/recover.go: it asks for a plan that it lost. The server and restic are states
-- with the functions that answer.
pub mod Ends
pub mod Creating
pub mod Recovering
use sion_backup.Prelude.{
  ℕ, Bool, true, false, Option, none, some, List, [], ◌∷◌, ◌++◌, ◌||◌, not, ◌&&◌, ℤ, pos, is_some,
  if◌then◌else◌,
}
use sion_backup.Prelude.Text.{Text, is_empty, text_eq, codes}
use sion_backup.Prelude.Result.{Result, ok, err}
use sion_backup.Prelude.Time.{Time}
use sion_backup.Plan.Schedule.{Schedule, is_nil}
use sion_backup.Plan.Schedule.Presets.{default_schedule}
use sion_backup.Plan.Record.{Plan}
use sion_backup.Plan.Store.{Store, StoreFaults}
use sion_backup.Plan.Business.{PlanFault, no_plan, store_failed, get, put}
use sion_backup.Restic.{ProcessEnd, Failure}
use sion_backup.Restic.Command.{Repository}
use sion_backup.Restic.Ops.{ensure, EnsureError, absent}
use sion_backup.Token.{TokenDir, TokenFaults, SaveError, save}

-- LegacyInstall, as a claim carries it.
pub record LegacyInstall : Type 0 where
  pub repository_url : Text
  pub snapshots : ℕ
  pub oldest_snapshot : Time

-- Machine with the code: the body of the claim.
pub record ClaimRequest : Type 0 where
  pub code : Text
  pub hostname : Text
  pub os : Text
  pub local_account : Text
  pub agent : Text
  pub legacy : Option LegacyInstall

-- Enrollment; the answer to a claim has the same fields.
pub record Enrollment : Type 0 where
  pub machine_token : Text
  pub node_id : Text
  pub owner_name : Text
  pub owner_email : Text
  pub warn_after_hours : ℤ
  pub repository_url : Text
  pub repository_provider : Text
  pub repository_region : Text
  pub repository_bucket : Text
  pub repository_created_at : Time
  pub repository_adopted : Bool
  pub repository_snapshots : ℤ
  pub restic_password : Text
  pub machine_key_id : Text
  pub machine_key_secret : Text
  pub restore_key_id : Text
  pub restore_key_secret : Text

-- A BadRequest of the client: the field it is about and its message.
pub record BadRequest : Type 0 where
  pub field : Text
  pub message : Text

-- How the client's call ends.
pub data Answer : Type 0 where
  answer : Enrollment → Answer
  not_found conflict : Answer
  bad_request : BadRequest → Answer
  no_answer : Text → Answer

pub data ClaimError : Type 0 where
  code_unknown code_used incomplete no_password : ClaimError
  refused : BadRequest → ClaimError
  claiming : Text → ClaimError

unfoldable pub repository_mismatch : ClaimError → Bool
repository_mismatch (refused b) = text_eq b.field (codes "legacy.repository_url")
repository_mismatch _ = false

unfoldable pub checked : Enrollment → Result ClaimError Enrollment
checked e =
    if is_empty e.machine_token || is_empty e.node_id || is_empty e.repository_url
    then err incomplete
    else if is_empty e.restic_password
    then err no_password
    else ok e

abbrev pub claimed : Answer → Result ClaimError Enrollment
claimed (answer e) = checked e
claimed not_found = err code_unknown
claimed conflict = err code_used
claimed (bad_request b) = err (refused b)
claimed (no_answer e) = err (claiming e)

-- planbus.Plan{}
abbrev pub zero_plan : Plan
zero_plan = record {
  node_id = [];
  repository = [];
  targets = [];
  excludes = [];
  schedule = record { times = []; jitter_minutes = pos 0; min_interval = pos 0 };
  pack_size_mib = pos 0;
  read_concurrency = pos 0;
  use_fs_snapshot = false;
  allow_vss_fallback = false;
  one_file_system = false;
  paused = false;
  skip_on_metered = false;
  skip_larger_than_gb = pos 0;
  style = [];
  confirmed_at = 0;
  updated_at = 0;
}

abbrev pub with_schedule : Plan → Plan
with_schedule p = if is_nil p.schedule.times then record p { schedule = default_schedule } else p

abbrev pub seed_targets : Result Text Plan → Plan → Plan
seed_targets (err e) p = p
seed_targets (ok seed) p =
    if is_nil seed.targets then p else record p { targets = seed.targets; excludes = seed.excludes }

abbrev pub with_targets : Result Text Plan → Plan → Plan
with_targets seed p = if is_nil p.targets then seed_targets seed p else p

-- The plan that storePlan writes over the one there was.
unfoldable pub enrolled_plan : Result Text Plan → Enrollment → Plan → Plan
enrolled_plan seed e p =
    with_targets seed
      (with_schedule (record p { node_id = e.node_id; repository = e.repository_url }))

abbrev pub store_over :
    StoreFaults
    → Result Text Plan
    → Enrollment
    → Time
    → Store
    → Result PlanFault Plan
    → Store × Option PlanFault
store_over f seed e now s (ok p) = put f (enrolled_plan seed e p) now s
store_over f seed e now s (err no_plan) = put f (enrolled_plan seed e zero_plan) now s
store_over f seed e now s (err x) = (s, some x)

-- `seed`: the plan of the configuration file.
unfoldable pub store_plan :
    StoreFaults → Result Text Plan → Enrollment → Time → Store → Store × Option PlanFault
store_plan f seed e now s = store_over f seed e now s (get f s)

abbrev pub repository_of : Enrollment → Repository
repository_of e = record {
  url = e.repository_url;
  password = e.restic_password;
  access_key_id = e.machine_key_id;
  secret_access_key = e.machine_key_secret;
  pack_size_mib = pos 0;
  read_concurrency = pos 0;
}

pub data RepositoryProblem : Type 0 where
  adopted_and_absent : RepositoryProblem
  of_restic : EnsureError → RepositoryProblem

abbrev pub opened : Bool → Bool → Option EnsureError → Bool × Option RepositoryProblem
opened adopted created none = (created, none)
opened true created (some absent) = (false, some adopted_and_absent)
opened adopted created (some e) = (created, some (of_restic e))

pub record RestoreCard : Type 0 where
  pub node_id : Text
  pub owner_email : Text
  pub repository_url : Text
  pub repository_bucket : Text
  pub restic_password : Text
  pub restore_key_id : Text
  pub restore_key_secret : Text

unfoldable pub card_for : Enrollment → RestoreCard
card_for e = record {
  node_id = e.node_id;
  owner_email = e.owner_email;
  repository_url = e.repository_url;
  repository_bucket = e.repository_bucket;
  restic_password = e.restic_password;
  restore_key_id = e.restore_key_id;
  restore_key_secret = e.restore_key_secret;
}

-- What an enrollment changes on the machine: its token file, the token that the program holds, the store
-- of plans; and the states of restic and of the server.
pub record Machine (R S : Type 0) : Type 0 where
  pub token_dir : TokenDir
  pub machine_token : Text
  pub store : Store
  pub restic : R
  pub server : S

pub data EnrollError : Type 0 where
  already_enrolled : EnrollError
  no_restic bad_server not_wired : Text → EnrollError
  not_claimed : ClaimError → EnrollError
  not_saved : SaveError → EnrollError
  not_planned : PlanFault → EnrollError

-- What the command finds around it: how fetching restic, making the two clients and asking about the card
-- end (an unreadable answer is a no), what fails, and the clock.
pub record Circumstances : Type 0 where
  pub force : Bool
  pub fetch_restic : Option Text
  pub anonymous_client : Option Text
  pub rewired : Option Text
  pub seed : Result Text Plan
  pub printed : Bool
  pub store_faults : StoreFaults
  pub token_faults : TokenFaults
  pub now : Time

-- What the command leaves: the machine, the enrollment or the error (with the enrollment, where the claim
-- had succeeded), and the end of the check of the repository where it came to that.
pub record Enrolled (R S : Type 0) : Type 0 where
  pub machine : Machine R S
  pub enrollment : Option Enrollment
  pub error : Option EnrollError
  pub repository : Option (Bool × Option RepositoryProblem)

unfoldable pub refuse_second_enrollment : Bool → Text → Bool
refuse_second_enrollment force token = not (is_empty token || force)

module _ {R S : Type 0} (exec : List Text → R → R × ProcessEnd)
    (ask : ClaimRequest → S → S × Answer) (say_card : Text → Time → S → S) where
  unfoldable pub ensure_repository : Enrollment → R → R × Bool × Option RepositoryProblem
  ensure_repository e r =
      let (r', created, x) = ensure exec (repository_of e) (not e.repository_adopted) r in
      let (made, problem) = opened e.repository_adopted created x in (r', made, problem)

  abbrev pub failed : Machine R S → EnrollError → Enrolled R S
  failed m e = record { machine = m; enrollment = none; error = some e; repository = none }

  -- The end: the repository, and what is told of the card.
  abbrev pub proved :
      Circumstances → Enrollment → Machine R S → R × Bool × Option RepositoryProblem → Enrolled R S
  proved c e m (r, made, problem) = record {
    machine = record m {
      restic = r;
      server = if c.printed then say_card e.repository_url c.now m.server else m.server;
    };
    enrollment = some e;
    error = none;
    repository = some (made, problem);
  }

  abbrev pub planned :
      Circumstances → Enrollment → Machine R S → Store × Option PlanFault → Enrolled R S
  planned c e m (s, some x) = record {
    machine = record m { store = s };
    enrollment = some e;
    error = some (not_planned x);
    repository = none;
  }
  planned c e m (s, none) = proved c e (record m { store = s }) (ensure_repository e m.restic)

  abbrev pub wired : Circumstances → Enrollment → Machine R S → Option Text → Enrolled R S
  wired c e m (some x) = failed m (not_wired x)
  wired c e m none = planned c e m (store_plan c.store_faults c.seed e c.now m.store)

  abbrev pub saved :
      Circumstances → Enrollment → Machine R S → TokenDir × Option SaveError → Enrolled R S
  saved c e m (d, some x) = failed (record m { token_dir = d }) (not_saved x)
  saved c e m (d, none) =
      wired c e (record m { token_dir = d; machine_token = e.machine_token }) c.rewired

  abbrev pub kept : Circumstances → Machine R S → S × Result ClaimError Enrollment → Enrolled R S
  kept c m (s, err x) = failed (record m { server = s }) (not_claimed x)
  kept c m (s, ok e) =
      saved c e (record m { server = s }) (save c.token_faults e.machine_token m.token_dir)

  -- eumaeuscreds.Claim
  unfoldable pub claim : ClaimRequest → S → S × Result ClaimError Enrollment
  unfolding checked
  claim q s = let (s', a) = ask q s in (s', claimed a)

  unfoldable pub enroll : Circumstances → ClaimRequest → Machine R S → Enrolled R S
  unfolding claim ensure_repository store_plan
  enroll c q m =
      if refuse_second_enrollment c.force m.machine_token
      then failed m already_enrolled
      else elim c.fetch_restic [
        | some x ↦ failed m (no_restic x)
        | none ↦ elim c.anonymous_client [
          | some x ↦ failed m (bad_server x)
          | none ↦ kept c m (claim q m.server)
        ]
      ]
