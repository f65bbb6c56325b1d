-- ===== src/Stub/Calls.antt =====
-- The handlers of the stub: what a machine asks (GET /machines/me, its credentials, a rotation request,
-- a cutover, the old bucket, a card, a run event), and what the harness does for an administrator.
use sion_backup.Prelude.{
  ℕ, Bool, true, false, Option, none, some, List, [], ◌∷◌, ◌++◌, not, ◌&&◌, ◌==◌, if◌then◌else◌,
  is_some,
}
use sion_backup.Prelude.Text.{Text, codes, text_eq, is_empty, trim_right, split}
use sion_backup.Prelude.Time.{Time, is_zero}
use sion_backup.Stub.{
  RepoState, active, offered, cutting_over, retired, Repo, Stub, is_cutting_over, is_active,
  current, on_offer, same_repository, find_from, previous_to, modify, row_at, expect_empty,
  CardWord, card_state,
}

pub record RepositoryReply : Type 0 where
  pub url : Text
  pub state : RepoState
  pub created_at : Time
  pub adopted : Bool

pub record OfferReply : Type 0 where
  pub url : Text
  pub region : Text
  pub bucket : Text
  pub offered_at : Time
  pub adopted : Bool

-- The reasons of the answers 409.
pub data Conflict : Type 0 where
  already_asked already_cutting_over waiting_for_machine nothing_offered : Conflict
  not_moving nothing_verified no_earlier_bucket no_current not_steady : Conflict

-- The answers, by status and content.
pub data Reply : Type 0 where
  no_repository no_such_card : Reply
  conflict : Conflict → Reply
  named_another : Text → Text → Reply
  machine_state : Text → RepositoryReply → CardWord → Option OfferReply → Reply
  credentials_for : Text → RepoState → Bool → Reply
  moved_to : Text → Reply
  released : Text → Text → Time → Reply
  retired_and_promoted : Text → Text → Reply
  offering pointed_at : Text → Reply
  accepted no_content needs_url : Reply

abbrev pub repository_state : Repo → RepositoryReply
repository_state r = record {
  url = r.url;
  state = r.state;
  created_at = r.created_at;
  adopted = r.adopted;
}

abbrev pub offer_of : Repo → OfferReply
offer_of o = record {
  url = o.url;
  region = o.region;
  bucket = o.bucket;
  offered_at = o.offered_at;
  adopted = o.adopted;
}

abbrev pub map_option : {A B : Type 0} → (A → B) → Option A → Option B
map_option f none = none
map_option f (some a) = some (f a)

unfoldable pub machine : Stub → Reply
machine s = elim (row_at s.repos (current s.repos)) [
  | none ↦ no_repository
  | some cur ↦
      machine_state s.node (repository_state cur) (card_state s.repos)
        (map_option offer_of (row_at s.repos (on_offer s.repos)))
]

abbrev pub credentials_of : Option Repo → Reply
credentials_of none = no_repository
credentials_of (some cur) = credentials_for cur.url cur.state (expect_empty cur)

unfoldable pub credentials : Stub → Reply
credentials s = credentials_of (row_at s.repos (current s.repos))

unfoldable pub rotation_request : Stub → Stub × Reply
rotation_request s = elim (row_at s.repos (current s.repos)) [
  | none ↦ (s, no_repository)
  | some cur ↦
      if s.rotation_asked
      then (s, conflict already_asked)
      else if is_cutting_over cur.state
      then (s, conflict already_cutting_over)
      else if is_some (on_offer s.repos)
      then (s, conflict waiting_for_machine)
      else (record s { rotation_asked = true }, accepted)
]

-- A row with its place.
abbrev pub placed : List Repo → Option ℕ → Option (ℕ × Repo)
placed rs none = none
placed rs (some i) = map_option (λ r. (i, r)) (row_at rs (some i))

abbrev pub begin_cutover : Repo → Repo
begin_cutover r = record r { state = cutting_over }

abbrev pub accept_offer : Text → Stub → Option (ℕ × Repo) → Stub × Reply
accept_offer named s none = (s, conflict nothing_offered)
accept_offer named s (some (i, offer)) =
    if not (same_repository offer.url named) then (s, named_another offer.url named) else (
      record s { repos = modify i begin_cutover s.repos; rotation_asked = false },
      moved_to offer.url,
    )

unfoldable pub cutover : Text → Stub → Stub × Reply
cutover named s = elim (row_at s.repos (current s.repos)) [
  | none ↦ (s, no_repository)
  | some cur ↦
      if is_cutting_over cur.state && same_repository cur.url named
      then (s, moved_to cur.url)
      else accept_offer named s (placed s.repos (on_offer s.repos))
]

-- The date of the first release stays.
abbrev pub ask_release : Time → Repo → Repo
ask_release now r = record r {
  release_asked_at = if is_zero r.release_asked_at then now else r.release_asked_at;
}

abbrev pub let_go : Time → Stub → Option (ℕ × Repo) → Stub × Reply
let_go now s none = (s, conflict no_earlier_bucket)
let_go now s (some (i, old)) = (
  record s { repos = modify i (ask_release now) s.repos },
  released old.bucket old.url (ask_release now old).release_asked_at,
)

unfoldable pub old_bucket : Text → Time → Stub → Stub × Reply
old_bucket named now s = elim (placed s.repos (current s.repos)) [
  | none ↦ (s, no_repository)
  | some (c, cur) ↦
      if not (is_cutting_over cur.state)
      then (s, conflict not_moving)
      else if not (same_repository cur.url named)
      then (s, named_another cur.url named)
      else if not cur.verified
      then (s, conflict nothing_verified)
      else let_go now s (placed s.repos (previous_to c s.repos))
]

abbrev pub print_card : Time → Repo → Repo
print_card now r = record r { card_issued_at = now }

unfoldable pub card_issued : Text → Time → Stub → Stub × Reply
card_issued named now s = elim (placed s.repos (current s.repos)) [
  | none ↦ (s, no_such_card)
  | some (c, cur) ↦
      if not (same_repository cur.url named)
      then (s, no_such_card)
      else (record s { repos = modify c (print_card now) s.repos }, no_content)
]

-- The body of a run event; what it does not carry is empty or false.
pub record RunEvent : Type 0 where
  pub phase : Text
  pub snapshot_id : Text
  pub repository_url : Text
  pub verified : Bool

-- The snapshot has landed, and where the event says so it was verified.
abbrev pub note_landed : Bool → Repo → Repo
note_landed verified r = record r {
  snapshot = true;
  verified = if verified then true else r.verified;
}

unfoldable pub note_run : RunEvent → Stub → Stub
note_run e s =
    if not (text_eq e.phase (codes "finished"))
    then s
    else if is_empty e.snapshot_id
    then s
    else elim (find_from 0 e.repository_url s.repos) [
      | none ↦ s
      | some i ↦ record s { repos = modify i (note_landed e.verified) s.repos }
    ]

abbrev pub last_of : Text → List Text → Text
last_of t [] = t
last_of t (u ∷ us) = last_of u us

unfoldable pub last_segment : Text → Text
last_segment url = last_of [] (split b'/' (trim_right (λ c. c == b'/') url))

unfoldable pub admin_offer : Text → Bool → Time → Stub → Stub × Reply
admin_offer url adopted now s = if is_empty url then (s, needs_url) else (
  record s {
    repos =
        s.repos
        ++ (record {
          url = url;
          state = offered;
          bucket = last_segment url;
          region = codes "test";
          created_at = now;
          adopted = adopted;
          offered_at = now;
          card_issued_at = 0;
          release_asked_at = 0;
          snapshot = false;
          verified = false;
        })
          ∷ [];
  },
  offering url,
)

abbrev pub retire : Repo → Repo
retire r = record r { state = retired }

abbrev pub promote : Repo → Repo
promote r = record r { state = active }

abbrev pub retire_from : ℕ → Repo → Stub → Option (ℕ × Repo) → Stub × Reply
retire_from c cur s none = (s, conflict no_earlier_bucket)
retire_from c cur s (some (i, old)) = (
  record s { repos = modify c promote (modify i retire s.repos) },
  retired_and_promoted old.url cur.url,
)

unfoldable pub admin_retire : Stub → Stub × Reply
admin_retire s = elim (placed s.repos (current s.repos)) [
  | none ↦ (s, conflict not_moving)
  | some (c, cur) ↦
      if not (is_cutting_over cur.state)
      then (s, conflict not_moving)
      else retire_from c cur s (placed s.repos (previous_to c s.repos))
]

abbrev pub point_row : Text → Repo → Repo
point_row url r = record r {
  url = url;
  bucket = last_segment url;
  snapshot = false;
  verified = false;
}

unfoldable pub admin_point_at : Text → Stub → Stub × Reply
admin_point_at url s =
    if is_empty url then (s, needs_url) else elim (placed s.repos (current s.repos)) [
      | none ↦ (s, conflict no_current)
      | some (c, cur) ↦
          if not (is_active cur.state)
          then (s, conflict not_steady)
          else (record s { repos = modify c (point_row url) s.repos }, pointed_at url)
    ]

-- One call that may change the table.
pub data Call : Type 0 where
  requests : Call
  cuts_over : Text → Call
  lets_go : Text → Time → Call
  prints : Text → Time → Call
  reports : RunEvent → Call
  offers : Text → Bool → Time → Call
  retires : Call
  points_at : Text → Call

unfoldable pub step : Call → Stub → Stub
step requests s = (rotation_request s).0
step (cuts_over named) s = (cutover named s).0
step (lets_go named now) s = (old_bucket named now s).0
step (prints named now) s = (card_issued named now s).0
step (reports e) s = note_run e s
step (offers url adopted now) s = (admin_offer url adopted now s).0
step retires s = (admin_retire s).0
step (points_at url) s = (admin_point_at url s).0

unfoldable pub steps : List Call → Stub → Stub
unfolding step
steps [] s = s
steps (c ∷ cs) s = steps cs (step c s)
