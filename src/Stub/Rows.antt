-- ===== src/Stub/Rows.antt =====
-- What may become of a row of the stub's table, and of the table.
use sion_backup.Prelude.{
  ℕ, zero, suc, ◌+◌, ◌≤◌, Bool, true, false, Option, none, some, List, [], ◌∷◌, ◌++◌, ◌||◌, ◌==◌,
  if◌then◌else◌, ◌≡◌, refl, inl, inr, ap, ◌∙◌, arith, get_elem?, subst, Bool-cases, Option-cases,
}
use sion_backup.Prelude.Text.{Text}
use sion_backup.Prelude.Time.{Time, is_zero}
use sion_backup.Stub.{
  RepoState, active, offered, cutting_over, retired, Repo, is_cutting_over, is_active, is_offered,
  is_retired, offered_from, previous_from, previous_to, modify,
}
use sion_backup.Stub.Calls.{
  placed, map_option, begin_cutover, ask_release, print_card, note_landed, retire, promote,
  point_row,
}

-- The order in which a bucket goes through its states.
abbrev pub rank : RepoState → ℕ
rank offered = 0
rank cutting_over = 1
rank active = 2
rank retired = 3

-- What may become of a row: the last part is about a row that has not been the active one yet.
abbrev pub Evolves : Repo → Repo → Type 0
Evolves r t =
    (rank r.state ≤ rank t.state)
    × (t.adopted ≡ r.adopted)
    × (is_zero r.release_asked_at ≡ false → t.release_asked_at ≡ r.release_asked_at)
    × (rank t.state ≤ 1 → r.snapshot ≡ true → t.snapshot ≡ true)

-- Every row evolves, and new ones may follow.
abbrev pub Onward : List Repo → List Repo → Type 0
Onward [] ts = Unit
Onward (r ∷ rs) [] = ⊥
Onward (r ∷ rs) (t ∷ ts) = Evolves r t × Onward rs ts

pub Evolves-refl : (r : Repo) → Evolves r r
Evolves-refl r = (omega arith, refl, λ _. refl, λ _ h. h)

pub Evolves-trans : (r t u : Repo) → Evolves r t → Evolves t u → Evolves r u
Evolves-trans r t u (a, b, c, d) (a', b', c', d') =
    (omega arith, b' ∙ b, λ h. c' (ap is_zero (c h) ∙ h) ∙ c h, λ k h. d' k (d (omega arith) h))

pub Onward-refl : (rs : List Repo) → Onward rs rs
Onward-refl [] = tt
Onward-refl (r ∷ rs) = (Evolves-refl r, Onward-refl rs)

pub Onward-trans : (rs ts us : List Repo) → Onward rs ts → Onward ts us → Onward rs us
Onward-trans [] ts us h k = tt
Onward-trans (r ∷ rs) [] us h k = absurd h
Onward-trans (r ∷ rs) (t ∷ ts) [] h k = absurd k
Onward-trans (r ∷ rs) (t ∷ ts) (u ∷ us) (e, h) (e', k) =
    (Evolves-trans r t u e e', Onward-trans rs ts us h k)

pub Onward-append : (rs ts : List Repo) → Onward rs (rs ++ ts)
Onward-append [] ts = tt
Onward-append (r ∷ rs) ts = (Evolves-refl r, Onward-append rs ts)

pub modify-Onward :
    (i : ℕ) (f : Repo → Repo) (rs : List Repo) (r : Repo)
    → get_elem? rs i ≡ some r
    → Evolves r (f r)
    → Onward rs (modify i f rs)
unfolding modify
modify-Onward i f [] r e h = tt
modify-Onward zero f (x ∷ rs) r e h =
    let s : r ≡ x = cc in (subst (λ y. Evolves y (f y)) s h, Onward-refl rs)
modify-Onward (suc i) f (x ∷ rs) r e h = (Evolves-refl x, modify-Onward i f rs r e h)

-- A place that is not written to keeps its row.
pub get_elem?-modify :
    (c i : ℕ) (f : Repo → Repo) (rs : List Repo)
    → (i == c) ≡ false
    → get_elem? (modify i f rs) c ≡ get_elem? rs c
unfolding modify
get_elem?-modify c i f [] h = refl
get_elem?-modify zero zero f (x ∷ rs) h = cc
get_elem?-modify (suc c) zero f (x ∷ rs) h = refl
get_elem?-modify zero (suc i) f (x ∷ rs) h = refl
get_elem?-modify (suc c) (suc i) f (x ∷ rs) h = get_elem?-modify c i f rs (ground arith)

pub placed_some :
    (j i : ℕ) (o : Option Repo) (r : Repo)
    → map_option {B = ℕ × Repo} (λ x. (j, x)) o ≡ some (i, r)
    → (j ≡ i) × (o ≡ some r)
placed_some j i none r h = cc
placed_some j i (some x) r h = (cc, cc)

-- A row with its place is the row at that place.
pub placed-at :
    (rs : List Repo) (o : Option ℕ) (i : ℕ) (r : Repo)
    → placed rs o ≡ some (i, r)
    → (o ≡ some i) × (get_elem? rs i ≡ some r)
placed-at rs none i r h = cc
placed-at rs (some j) i r h =
    let (e, k) = placed_some j i (get_elem? rs j) r h in (ap some e, rw (← e) k)

pub is_offered-eq : (s : RepoState) → is_offered s ≡ true → s ≡ offered
is_offered-eq offered h = refl
is_offered-eq active h = cc
is_offered-eq cutting_over h = cc
is_offered-eq retired h = cc

-- The row on offer is in that state.
pub offered_from-offered :
    (i : ℕ) (rs : List Repo) (j : ℕ)
    → offered_from i rs ≡ some j
    → (k : ℕ) × (r : Repo) × (j ≡ i + k) × (get_elem? rs k ≡ some r) × (r.state ≡ offered)
unfolding offered_from
offered_from-offered i [] j h = cc
offered_from-offered i (x ∷ rs) j h = elim (Option-cases (offered_from (suc i) rs)) [
  | inl e ↦ elim (Bool-cases (is_offered x.state)) [
    | inl o ↦ (0, x, ground arith, refl, is_offered-eq x.state o)
    | inr o ↦ absurd (ground arith)
  ]
  | inr (m, e) ↦
      let (k, r, e1, e2, e3) = offered_from-offered (suc i) rs m e in
      (suc k, r, ground arith, e2, e3)
]

-- The place is not `c`, if there is one.
abbrev IsNot : ℕ → Option ℕ → Type 0
IsNot c none = Unit
IsNot c (some j) = (j == c) ≡ false

pub choose-IsNot :
    (c i : ℕ) (b d : Bool) (prev : Option ℕ)
    → IsNot c prev
    → IsNot c (if i == c || b || d then prev else some i)
choose-IsNot c i b d prev h = elim (Bool-cases (i == c || b || d)) [
  | inl e ↦ rw e h
  | inr e ↦ rw e (ground arith)
]

pub previous_from-IsNot :
    (c i : ℕ) (prev : Option ℕ) (rs : List Repo)
    → IsNot c prev
    → IsNot c (previous_from c i prev rs)
unfolding previous_from
previous_from-IsNot c i prev [] h = h
previous_from-IsNot c i prev (r ∷ rs) h =
    previous_from-IsNot c (suc i)
      (if i == c || is_retired r.state || is_offered r.state then prev else some i) rs
      (choose-IsNot c i (is_retired r.state) (is_offered r.state) prev h)

pub previous_to-ne : (c i : ℕ) (rs : List Repo) → previous_to c rs ≡ some i → (i == c) ≡ false
unfolding previous_to
previous_to-ne c i rs h = subst (IsNot c) h (previous_from-IsNot c 0 none rs tt)

pub is_cutting_over-eq : (s : RepoState) → is_cutting_over s ≡ true → s ≡ cutting_over
is_cutting_over-eq cutting_over h = refl
is_cutting_over-eq active h = cc
is_cutting_over-eq offered h = cc
is_cutting_over-eq retired h = cc

pub is_active-eq : (s : RepoState) → is_active s ≡ true → s ≡ active
is_active-eq active h = refl
is_active-eq cutting_over h = cc
is_active-eq offered h = cc
is_active-eq retired h = cc

pub rank-le : (s : RepoState) → rank s ≤ 3
rank-le offered = omega arith
rank-le cutting_over = omega arith
rank-le active = omega arith
rank-le retired = omega arith

pub begin-Evolves : (r : Repo) → r.state ≡ offered → Evolves r (begin_cutover r)
begin-Evolves r e = (rw e (omega arith), refl, λ _. refl, λ _ h. h)

pub ask-Evolves : (now : Time) (r : Repo) → Evolves r (ask_release now r)
ask-Evolves now r = (omega arith, refl, λ h. rw h refl, λ _ h. h)

pub print-Evolves : (now : Time) (r : Repo) → Evolves r (print_card now r)
print-Evolves now r = (omega arith, refl, λ _. refl, λ _ h. h)

pub note-Evolves : (v : Bool) (r : Repo) → Evolves r (note_landed v r)
note-Evolves v r = (omega arith, refl, λ _. refl, λ _ h. refl)

pub retire-Evolves : (r : Repo) → Evolves r (retire r)
retire-Evolves r = (rank-le r.state, refl, λ _. refl, λ _ h. h)

pub promote-Evolves : (r : Repo) → r.state ≡ cutting_over → Evolves r (promote r)
promote-Evolves r e = (rw e (omega arith), refl, λ _. refl, λ _ h. h)

pub point-Evolves : (url : Text) (r : Repo) → r.state ≡ active → Evolves r (point_row url r)
point-Evolves url r e = (
  omega arith,
  refl,
  λ _. refl,
  λ k h. absurd (let q : rank active ≤ 1 = subst (λ s. rank s ≤ 1) e k in omega arith),
)
