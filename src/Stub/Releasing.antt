-- ===== src/Stub/Releasing.antt =====
-- rotation.go of the stub: when the bucket before is let go of.
use sion_backup.Prelude.{
  ℕ, zero, suc, Bool, true, false, Option, none, some, List, [], ◌∷◌, ◌++◌, ◌&&◌, ◌==◌, ◌⊎◌, ◌≡◌,
  refl, inl, inr, sym, ◌∙◌, arith, get_elem?, subst, Bool-cases, Option-cases,
}
use sion_backup.Prelude.Text.{Text, text_eq, is_empty, codes}
use sion_backup.Prelude.Time.{Time, is_zero}
use sion_backup.Stub.{
  Repo, Stub, is_cutting_over, is_active, current, on_offer, same_repository, find_from,
  previous_to, modify, row_at,
}
use sion_backup.Stub.Calls.{
  placed, begin_cutover, accept_offer, ask_release, let_go, print_card, note_landed, retire,
  promote, retire_from, point_row, rotation_request, cutover, old_bucket, card_issued, RunEvent,
  note_run, admin_offer, admin_retire, admin_point_at, Call, requests, cuts_over, lets_go, prints,
  reports, offers, retires, points_at, step, steps,
}
use sion_backup.Stub.Rows.{placed-at, previous_to-ne, get_elem?-modify}

-- The row at this place has a release date.
abbrev pub IsAsked : List Repo → ℕ → Type 0
IsAsked rs i = (r : Repo) × (get_elem? rs i ≡ some r) × (is_zero r.release_asked_at ≡ false)

-- The call lets go of the bucket at place `i`, and names the one that has taken its place: the current one,
-- which is another, is cutting over, and in which a verified snapshot has landed.
abbrev pub Earns : Call → Stub → ℕ → Type 0
Earns (lets_go named now) s i =
    (k : ℕ) × (cur : Repo) × (current s.repos ≡ some k)
    × (get_elem? s.repos k ≡ some cur)
    × ((k == i) ≡ false)
    × (is_cutting_over cur.state ≡ true)
    × (same_repository cur.url named ≡ true)
    × (cur.verified ≡ true)
Earns _ s i = ⊥

-- One of the calls does so, in the state that it finds.
abbrev pub EarnedIn : List Call → Stub → ℕ → Type 0
EarnedIn [] s i = ⊥
EarnedIn (c ∷ cs) s i = Earns c s i ⊎ EarnedIn cs (step c s) i

-- A row with a release date had it before.
abbrev Back : List Repo → List Repo → Type 0
Back rs ts = (i : ℕ) → IsAsked ts i → IsAsked rs i

modify-Back :
    (j : ℕ) (f : Repo → Repo) (rs : List Repo)
    → ((r : Repo) → (f r).release_asked_at ≡ r.release_asked_at)
    → Back rs (modify j f rs)
unfolding modify
modify-Back j f [] h i a = a
modify-Back zero f (x ∷ rs) h zero (r, e, q) =
    let s : f x ≡ r = cc in
    (x, refl, rw (← h x) (subst (λ (y : Repo). is_zero y.release_asked_at ≡ false) (sym s) q))
modify-Back zero f (x ∷ rs) h (suc i) a = a
modify-Back (suc j) f (x ∷ rs) h zero a = a
modify-Back (suc j) f (x ∷ rs) h (suc i) a = modify-Back j f rs h i a

append-Back :
    (o : Repo) (rs : List Repo) → is_zero o.release_asked_at ≡ true → Back rs (rs ++ o ∷ [])
append-Back o [] h zero (r, e, q) =
    let s : o ≡ r = cc in
    cc (sym h ∙ subst (λ (y : Repo). is_zero y.release_asked_at ≡ false) (sym s) q)
append-Back o [] h (suc i) (r, e, q) = cc
append-Back o (x ∷ rs) h zero a = a
append-Back o (x ∷ rs) h (suc i) a = append-Back o rs h i a

request-Back : (s : Stub) → Back s.repos (rotation_request s).0.repos
unfolding rotation_request
request-Back s = elim (Option-cases (row_at s.repos (current s.repos))) [
  | inl e ↦ rw (e, rotation_request) (λ i a. a)
  | inr (cur, e) ↦
      rw (e, rotation_request) (let same : Back s.repos s.repos = λ i a. a in ground (arith, same))
]

accept-Back :
    (named : Text) (s : Stub) (o : Option (ℕ × Repo))
    → Back s.repos (accept_offer named s o).0.repos
accept-Back named s none = λ i a. a
accept-Back named s (some (i, o)) = elim (Bool-cases (same_repository o.url named)) [
  | inl g ↦ rw g (modify-Back i begin_cutover s.repos (λ r. refl))
  | inr g ↦ rw g (λ i a. a)
]

cutover-Back : (named : Text) (s : Stub) → Back s.repos (cutover named s).0.repos
unfolding cutover
cutover-Back named s = elim (Option-cases (row_at s.repos (current s.repos))) [
  | inl e ↦ rw (e, cutover) (λ i a. a)
  | inr (cur, e) ↦
      rw (e, cutover)
        (elim (Bool-cases (is_cutting_over cur.state && same_repository cur.url named)) [
          | inl g ↦ rw g (λ i a. a)
          | inr g ↦ rw g (accept-Back named s (placed s.repos (on_offer s.repos)))
        ])
]

card_issued-Back :
    (named : Text) (now : Time) (s : Stub) → Back s.repos (card_issued named now s).0.repos
unfolding card_issued
card_issued-Back named now s = elim (Option-cases (placed s.repos (current s.repos))) [
  | inl e ↦ rw (e, card_issued) (λ i a. a)
  | inr ((c, cur), e) ↦
      rw (e, card_issued)
        (elim (Bool-cases (same_repository cur.url named)) [
          | inl g ↦ rw g (modify-Back c (print_card now) s.repos (λ r. refl))
          | inr g ↦ rw g (λ i a. a)
        ])
]

note_run-Back : (e : RunEvent) (s : Stub) → Back s.repos (note_run e s).repos
unfolding note_run
note_run-Back e s = elim (Bool-cases (text_eq e.phase (codes "finished"))) [
  | inr f ↦ rw f (λ i a. a)
  | inl f ↦ rw f (elim (Bool-cases (is_empty e.snapshot_id)) [
    | inl n ↦ rw n (λ i a. a)
    | inr n ↦ rw n (elim (Option-cases (find_from 0 e.repository_url s.repos)) [
      | inl g ↦ rw g (λ i a. a)
      | inr (i, g) ↦ rw g (modify-Back i (note_landed e.verified) s.repos (λ r. refl))
    ])
  ])
]

admin_offer-Back :
    (url : Text) (adopted : Bool) (now : Time) (s : Stub)
    → Back s.repos (admin_offer url adopted now s).0.repos
unfolding admin_offer
admin_offer-Back url adopted now s = elim (Bool-cases (is_empty url)) [
  | inl e ↦ rw e (λ i a. a)
  | inr e ↦ rw e (append-Back _ s.repos refl)
]

retire_from-Back :
    (c : ℕ) (cur : Repo) (s : Stub) (o : Option (ℕ × Repo))
    → Back s.repos (retire_from c cur s o).0.repos
retire_from-Back c cur s none i a = a
retire_from-Back c cur s (some (j, old)) i a =
    modify-Back j retire s.repos (λ r. refl) i
      (modify-Back c promote (modify j retire s.repos) (λ r. refl) i a)

admin_retire-Back : (s : Stub) → Back s.repos (admin_retire s).0.repos
unfolding admin_retire
admin_retire-Back s = elim (Option-cases (placed s.repos (current s.repos))) [
  | inl e ↦ rw (e, admin_retire) (λ i a. a)
  | inr ((c, cur), e) ↦
      rw (e, admin_retire)
        (elim (Bool-cases (is_cutting_over cur.state)) [
          | inl g ↦ rw g (retire_from-Back c cur s (placed s.repos (previous_to c s.repos)))
          | inr g ↦ rw g (λ i a. a)
        ])
]

point_at-Back : (url : Text) (s : Stub) → Back s.repos (admin_point_at url s).0.repos
unfolding admin_point_at
point_at-Back url s = elim (Bool-cases (is_empty url)) [
  | inl n ↦ rw n (λ i a. a)
  | inr n ↦ rw n (elim (Option-cases (placed s.repos (current s.repos))) [
    | inl e ↦ rw e (λ i a. a)
    | inr ((c, cur), e) ↦ rw e (elim (Bool-cases (is_active cur.state)) [
      | inl g ↦ rw g (modify-Back c (point_row url) s.repos (λ r. refl))
      | inr g ↦ rw g (λ i a. a)
    ])
  ])
]

-- What is let go of is at the place before the current one, and that is another place.
let_go-Asked :
    (c : ℕ) (now : Time) (s : Stub) (o : Option (ℕ × Repo)) (i : ℕ)
    → placed s.repos (previous_to c s.repos) ≡ o
    → IsAsked (let_go now s o).0.repos i
    → IsAsked s.repos i ⊎ ((c == i) ≡ false)
let_go-Asked c now s none i h a = inl a
let_go-Asked c now s (some (j, old)) i h (r, e, q) = elim (Bool-cases (j == i)) [
  | inl g ↦
      let apart =
        previous_to-ne c j s.repos (placed-at s.repos (previous_to c s.repos) j old h).0 in
      inr (ground arith)
  | inr g ↦ inl (r, sym (get_elem?-modify i j (ask_release now) s.repos g) ∙ e, q)
]

old_bucket-Asked :
    (named : Text) (now : Time) (s : Stub) (i : ℕ)
    → IsAsked (old_bucket named now s).0.repos i
    → IsAsked s.repos i ⊎ Earns (lets_go named now) s i
unfolding old_bucket
old_bucket-Asked named now s i = elim (Option-cases (placed s.repos (current s.repos))) [
  | inl e ↦ rw (e, old_bucket) inl
  | inr ((c, cur), e) ↦
      let (at, here) = placed-at s.repos (current s.repos) c cur e in
      rw (e, old_bucket)
        (elim (Bool-cases (is_cutting_over cur.state)) [
          | inr g ↦ rw g inl
          | inl g ↦ rw g (elim (Bool-cases (same_repository cur.url named)) [
            | inr n ↦ rw n inl
            | inl n ↦ rw n (elim (Bool-cases cur.verified) [
              | inr v ↦ rw v inl
              | inl v ↦ simp v (λ a.
                  elim (let_go-Asked c now s (placed s.repos (previous_to c s.repos)) i refl a) [
                    | inl b ↦ inl b
                    | inr d ↦ inr (c, cur, at, here, d, g, n, v)
                  ])
            ])
          ])
        ])
]

step-Asked :
    (c : Call) (s : Stub) (i : ℕ) → IsAsked (step c s).repos i → IsAsked s.repos i ⊎ Earns c s i
unfolding step
step-Asked requests s i a = inl (request-Back s i a)
step-Asked (cuts_over named) s i a = inl (cutover-Back named s i a)
step-Asked (lets_go named now) s i a = old_bucket-Asked named now s i a
step-Asked (prints named now) s i a = inl (card_issued-Back named now s i a)
step-Asked (reports e) s i a = inl (note_run-Back e s i a)
step-Asked (offers url adopted now) s i a = inl (admin_offer-Back url adopted now s i a)
step-Asked retires s i a = inl (admin_retire-Back s i a)
step-Asked (points_at url) s i a = inl (point_at-Back url s i a)

-- No bucket is let go of before its successor is proved: whatever calls come and in whatever order, a row
-- that has a release date in the end had one at the start, or else one of the calls asked for the
-- release while another row was the current one, cutting over, named by the call, and said that a
-- verified snapshot had landed in it.
pub steps-Asked :
    (cs : List Call) (s : Stub) (i : ℕ)
    → IsAsked (steps cs s).repos i
    → IsAsked s.repos i ⊎ EarnedIn cs s i
unfolding steps
steps-Asked [] s i a = inl a
steps-Asked (c ∷ cs) s i a = elim (steps-Asked cs (step c s) i a) [
  | inr b ↦ inr (inr b)
  | inl b ↦ elim (step-Asked c s i b) [ inl d ↦ inl d | inr d ↦ inr (inl d) ]
]
