-- ===== src/Stub.antt =====
-- scripts/backup-e2e/eumaeusstub: the server that the end-to-end tests run, its table of repositories
-- and what it answers a machine about them (rotation.go, main.go). A pointer to a row is its place in
-- the table, since rows are only added. The journal and the texts of refusals are left out.
pub mod Calls
pub mod Rows
pub mod Evolving
pub mod Releasing
pub mod Retrying
pub mod Creating
use sion_backup.Prelude.{
  ℕ, zero, suc, Bool, true, false, Option, none, some, List, [], ◌∷◌, not, ◌&&◌, ◌||◌, ◌==◌,
  if◌then◌else◌, get_elem?,
}
use sion_backup.Prelude.Text.{Text, text_eq, trim_right, trim_space}
use sion_backup.Prelude.Time.{Time, is_zero}

pub data RepoState : Type 0 where
  active offered cutting_over retired : RepoState

pub record Repo : Type 0 where
  pub url : Text
  pub state : RepoState
  pub bucket : Text
  pub region : Text
  pub created_at : Time
  pub adopted : Bool
  pub offered_at : Time
  pub card_issued_at : Time
  pub release_asked_at : Time
  pub snapshot : Bool
  pub verified : Bool

pub record Stub : Type 0 where
  pub node : Text
  pub repos : List Repo
  pub rotation_asked : Bool

abbrev pub is_active : RepoState → Bool
is_active active = true
is_active _ = false

abbrev pub is_offered : RepoState → Bool
is_offered offered = true
is_offered _ = false

abbrev pub is_cutting_over : RepoState → Bool
is_cutting_over cutting_over = true
is_cutting_over _ = false

abbrev pub is_retired : RepoState → Bool
is_retired retired = true
is_retired _ = false

-- The place of the current row, from place `i` on; `found`: that of the last active one so far.
unfoldable pub current_from : ℕ → Option ℕ → List Repo → Option ℕ
current_from i found [] = found
current_from i found (r ∷ rs) =
    let rest = current_from (suc i) (if is_active r.state then some i else found) rs in
    if is_cutting_over r.state then some i else rest

unfoldable pub current : List Repo → Option ℕ
unfolding current_from
current rs = current_from 0 none rs

-- The place of the last row on offer, from place `i` on.
unfoldable pub offered_from : ℕ → List Repo → Option ℕ
offered_from i [] = none
offered_from i (r ∷ rs) = elim (offered_from (suc i) rs) [
  | some j ↦ some j
  | none ↦ if is_offered r.state then some i else none
]

unfoldable pub on_offer : List Repo → Option ℕ
unfolding offered_from
on_offer rs = offered_from 0 rs

unfoldable pub same_repository : Text → Text → Bool
same_repository a b = text_eq (trim a) (trim b)
  where
    trim : Text → Text
    trim s = trim_right (λ c. c == b'/') (trim_space s)

unfoldable pub find_from : ℕ → Text → List Repo → Option ℕ
find_from i url [] = none
find_from i url (r ∷ rs) =
    let rest = find_from (suc i) url rs in if same_repository r.url url then some i else rest

-- The row before the one at place `cur`: the last one neither retired nor on offer.
unfoldable pub previous_from : ℕ → ℕ → Option ℕ → List Repo → Option ℕ
previous_from cur i prev [] = prev
previous_from cur i prev (r ∷ rs) =
    previous_from cur (suc i)
      (if i == cur || is_retired r.state || is_offered r.state then prev else some i) rs

unfoldable pub previous_to : ℕ → List Repo → Option ℕ
unfolding previous_from
previous_to cur rs = previous_from cur 0 none rs

-- A write through a pointer.
unfoldable pub modify : ℕ → (Repo → Repo) → List Repo → List Repo
modify i f [] = []
modify zero f (r ∷ rs) = f r ∷ rs
modify (suc i) f (r ∷ rs) = r ∷ modify i f rs

abbrev pub row_at : List Repo → Option ℕ → Option Repo
row_at rs none = none
row_at rs (some i) = get_elem? rs i

unfoldable pub expect_empty : Repo → Bool
expect_empty r = is_cutting_over r.state && not r.adopted && not r.snapshot

pub data CardWord : Type 0 where
  issued : Time → CardWord
  superseded never : CardWord

abbrev pub paper_left : List Repo → CardWord
paper_left [] = never
paper_left (r ∷ rs) =
    let rest = paper_left rs in
    if is_retired r.state && not (is_zero r.card_issued_at) then superseded else rest

abbrev pub card_of : List Repo → Option Repo → CardWord
card_of rs none = paper_left rs
card_of rs (some r) = if is_zero r.card_issued_at then paper_left rs else issued r.card_issued_at

unfoldable pub card_state : List Repo → CardWord
unfolding current
card_state rs = card_of rs (row_at rs (current rs))
