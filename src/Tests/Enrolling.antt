-- ===== src/Tests/Enrolling.antt =====
-- enroll.go, recover.go and token.go at concrete inputs: a machine that claims a code for an empty bucket,
-- and one that lost its plan.
use sion_backup.Prelude.{◌*◌, ◌≡◌, refl, true, false, Bool, none, some, [], pos, subst, inr, inl}
use sion_backup.Prelude.Text.{Text, codes, cut, trim_space, atoi}
use sion_backup.Prelude.Time.{Time, day}
use sion_backup.Prelude.Result.{ok, err}
use sion_backup.Plan.Record.{validate}
use sion_backup.Plan.Business.{get, put}
use sion_backup.Plan.Schedule.{parse_time_of_day}
use sion_backup.Plan.Schedule
use sion_backup.Plan.Schedule.Presets.{default_schedule}
use sion_backup.Restic.{classify}
use sion_backup.Restic.Command
use sion_backup.Restic.Ops.{exists, ensure, run, is_absent, init}
use sion_backup.Restic.Ops.Creating.{HasInit, logged}
use sion_backup.Token.{TokenDir, TokenFaults, is_plain, save, SaveLeaves, save-SaveLeaves}
use sion_backup.Enrolling.{
  refuse_second_enrollment, enrolled_plan, ClaimRequest, Enrollment, Answer, answer, Machine,
  Circumstances, enroll, repository_of,
}
use sion_backup.Enrolling.Ends.{Leaves, enroll-Leaves}
use sion_backup.Enrolling.Creating.{enroll-creates}
use sion_backup.Enrolling.Recovering.{recover_plan, IsQuiet, recover_plan-IsQuiet}
use sion_backup.Tests.Business.{works, empty}
use sion_backup.Tests.Repository.{emptied}
use sion_backup.Tests.Polling.{said}

abbrev writable : TokenFaults
writable = record {
  read = false;
  mkdir = false;
  create = false;
  chmod = false;
  write = false;
  sync = false;
  close = false;
  remove = false;
  rename = false;
  clean = false;
}

abbrev no_token : TokenDir
no_token = record { token = none; leftover = false }

plain_token : is_plain (codes "m1") ≡ true
unfolding is_plain
plain_token = refl

save-SaveLeaves_example : SaveLeaves no_token (codes "m1") (save writable (codes "m1") no_token)
save-SaveLeaves_example = save-SaveLeaves writable (codes "m1") no_token plain_token

abbrev ana : Enrollment
ana = record {
  machine_token = codes "m1";
  node_id = codes "ana";
  owner_name = [];
  owner_email = [];
  warn_after_hours = pos 48;
  repository_url = codes "s3:b";
  repository_provider = [];
  repository_region = [];
  repository_bucket = codes "b";
  repository_created_at = day;
  repository_adopted = false;
  repository_snapshots = pos 0;
  restic_password = codes "p";
  machine_key_id = codes "k";
  machine_key_secret = codes "s";
  restore_key_id = codes "rk";
  restore_key_secret = codes "rs";
}

abbrev code : ClaimRequest
code = record {
  code = codes "c0de";
  hostname = codes "ana";
  os = codes "linux";
  local_account = [];
  agent = codes "1.0";
  legacy = none;
}

-- Whether the code is spent, and whether a card is told of.
abbrev claims : ClaimRequest → Bool → Bool × Answer
claims q spent = (true, answer ana)

abbrev tells : Text → Time → Bool → Bool
tells url now spent = spent

abbrev calm : Circumstances
calm = record {
  force = false;
  fetch_restic = none;
  anonymous_client = none;
  rewired = none;
  seed = err (codes "no file");
  printed = true;
  store_faults = works;
  token_faults = writable;
  now = 2 * day;
}

abbrev fresh : {R : Type 0} → R → Machine R Bool
fresh r = record {
  token_dir = no_token;
  machine_token = [];
  store = empty;
  restic = r;
  server = false;
}

answers_plain :
    (s : Bool) (e : Enrollment) → (claims code s).1 ≡ answer e → is_plain e.machine_token ≡ true
answers_plain s e h =
    let k : ana ≡ e = cc in subst (λ x. is_plain x.machine_token ≡ true) k plain_token

enroll-Leaves_example :
    let r = enroll emptied claims tells calm code (fresh false) in
    Leaves (fresh false) r.machine r.enrollment r.error
enroll-Leaves_example = enroll-Leaves emptied claims tells calm code (fresh false) answers_plain

sends_init :
    HasInit (enroll (logged emptied) claims tells calm code (fresh ([], false))).machine.restic.0
unfolding enroll refuse_second_enrollment save get put validate enrolled_plan Schedule.validate
    default_schedule parse_time_of_day cut trim_space atoi ensure exists run Command.validate
    is_absent init classify
sends_init = inr (inl refl)

enroll-creates_example :
    (e : Enrollment) × ((enroll
        (logged emptied)
        claims
        tells
        calm
        code
        (fresh ([], false))).enrollment
      ≡ some e)
    × (e.repository_adopted ≡ false)
    × ((exists emptied (repository_of e) false).1 ≡ ok false)
enroll-creates_example =
    enroll-creates emptied claims tells calm code (fresh ([], false)) false sends_init

recover_plan-IsQuiet_example : IsQuiet empty (recover_plan works true (ok said) day empty) none
recover_plan-IsQuiet_example = recover_plan-IsQuiet works true (ok said) day empty
