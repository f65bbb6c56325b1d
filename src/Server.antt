-- ===== src/Server.antt =====
-- business/domain/machine/machinebus: what the server says about this machine (machinebus.go), and what
-- the machine may ask of it (rotation.go). The server is a state with the functions that answer a call.
use sion_backup.Prelude.{
  Bool, true, false, Option, none, some, List, [], ◌∷◌, ◌++◌, not, ◌&&◌, if◌then◌else◌, ℤ,
}
use sion_backup.Prelude.Text.{Text, text_eq, is_empty}
use sion_backup.Prelude.Result.{Result, ok, err}
use sion_backup.Prelude.Time.{Time}
use sion_backup.Plan.Machine.{Offered, Card}

-- machinebus.State; the offer and the card are those of the plan's record of it, field for field.
pub record State : Type 0 where
  pub node_id : Text
  pub repository_url : Text
  pub repository_created_at : Time
  pub routes : Option (List Text)
  pub owner_name : Text
  pub owner_email : Text
  pub repository_state : Text
  pub repository_adopted : Bool
  pub offer : Option Offered
  pub card : Card

unfoldable pub knows_what_it_serves : State → Bool
knows_what_it_serves s = elim s.routes [ none ↦ false | some _ ↦ true ]

unfoldable pub is_route : Text → List Text → Bool
is_route want [] = false
is_route want (r ∷ rs) = let rest = is_route want rs in if text_eq r want then true else rest

unfoldable pub serves : State → Text → Text → Bool
serves s method path = elim s.routes [
  | none ↦ false
  | some rs ↦ is_route (method ++ b' ' ∷ path) rs
]

unfoldable pub usable : State → Bool
usable s = not (is_empty s.node_id) && not (is_empty s.repository_url)

pub record Measured : Type 0 where
  pub repository_url : Text
  pub reclaimable_bytes : ℤ
  pub fresh_bytes : ℤ
  pub measured_at : Time

pub record Released : Type 0 where
  pub bucket : Text
  pub url : Text
  pub asked_at : Time

-- The server's own refusals are errors of the source, with their text.
pub data ServerError : Type 0 where
  not_enrolled nothing_named unusable : ServerError
  source_failed : Text → ServerError

abbrev pub from_source : {A : Type 0} → Result Text A → Result ServerError A
from_source (ok a) = ok a
from_source (err e) = err (source_failed e)

abbrev pub if_usable : Result ServerError State → Result ServerError State
if_usable (err e) = err e
if_usable (ok s) = if usable s then ok s else err unusable

-- Business.State
unfoldable pub state : Bool → Result Text State → Result ServerError State
state available answer = if available then if_usable (from_source answer) else err not_enrolled

module _ {S : Type 0} where
  abbrev pub sent : {A : Type 0} → S × Result Text A → S × Result ServerError A
  sent (s, r) = (s, from_source r)

  -- What the four requests have in common: enrolment, and the repository they are about.
  unfoldable pub gated :
      {A : Type 0} → Bool → Text → (S → S × Result Text A) → S → S × Result ServerError A
  gated available url call s =
      if not available
      then (s, err not_enrolled)
      else if is_empty url
      then (s, err nothing_named)
      else sent (call s)

  unfoldable pub request_rotation :
      Bool → (Measured → S → S × Result Text Unit) → Measured → S → S × Result ServerError Unit
  unfolding gated
  request_rotation available call m s = gated available m.repository_url (call m) s

  unfoldable pub cutover :
      Bool → (Text → S → S × Result Text Unit) → Text → S → S × Result ServerError Unit
  unfolding gated
  cutover available call url s = gated available url (call url) s

  unfoldable pub release_old_bucket :
      Bool → (Text → S → S × Result Text Released) → Text → S → S × Result ServerError Released
  unfolding gated
  release_old_bucket available call url s = gated available url (call url) s

  unfoldable pub card_issued :
      Bool
      → (Text → Time → S → S × Result Text Unit)
      → Text
      → Time
      → S
      → S × Result ServerError Unit
  unfolding gated
  card_issued available call url printed_at s = gated available url (call url printed_at) s
