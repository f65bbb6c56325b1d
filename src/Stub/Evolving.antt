-- ===== src/Stub/Evolving.antt =====
-- How the rows of the stub's table change from call to call.
use sion_backup.Prelude.{
  ℕ, zero, suc, ◌≤◌, Bool, true, false, Option, some, List, [], ◌∷◌, ◌&&◌, ◌≡◌, refl, inl, inr, ap,
  sym, ◌∙◌, arith, get_elem?, subst, Bool-cases, Option-cases,
}
use sion_backup.Prelude.Text.{Text, is_empty}
use sion_backup.Prelude.Time.{Time, is_zero}
use sion_backup.Stub.{
  offered, cutting_over, Repo, Stub, is_cutting_over, is_active, current, on_offer, same_repository,
  find_from, previous_to, modify, row_at, expect_empty,
}
use sion_backup.Stub.Calls.{
  placed, begin_cutover, accept_offer, ask_release, let_go, print_card, note_landed, retire,
  promote, retire_from, point_row, rotation_request, cutover, old_bucket, card_issued, RunEvent,
  note_run, admin_offer, admin_retire, admin_point_at, Call, requests, cuts_over, lets_go, prints,
  reports, offers, retires, points_at, step, steps,
}
use sion_backup.Stub.Rows.{
  rank, Evolves, Onward, Evolves-refl, Onward-refl, Onward-trans, Onward-append, modify-Onward,
  get_elem?-modify, placed-at, offered_from-offered, previous_to-ne, is_cutting_over-eq,
  is_active-eq, begin-Evolves, ask-Evolves, print-Evolves, note-Evolves, retire-Evolves,
  promote-Evolves, point-Evolves,
}

-- A write to a row with its place.
write-Onward :
    (rs : List Repo) (o : Option ℕ) (i : ℕ) (r : Repo) (f : Repo → Repo)
    → placed rs o ≡ some (i, r)
    → Evolves r (f r)
    → Onward rs (modify i f rs)
write-Onward rs o i r f h e = modify-Onward i f rs r (placed-at rs o i r h).1 e

some_injective : (r o : Repo) → some r ≡ some o → r ≡ o
some_injective r o e = cc

offer-offered :
    (rs : List Repo) (i : ℕ) (o : Repo) → placed rs (on_offer rs) ≡ some (i, o) → o.state ≡ offered
unfolding on_offer
offer-offered rs i o h =
    let (e, g) = placed-at rs (on_offer rs) i o h in
    let (k, r, e1, e2, e3) = offered_from-offered 0 rs i e in
    let same : k ≡ i = omega arith in
    let one : r ≡ o = some_injective r o (sym e2 ∙ ap (get_elem? rs) same ∙ g) in
    subst (λ x. x.state ≡ offered) one e3

request-Onward : (s : Stub) → Onward s.repos (rotation_request s).0.repos
unfolding rotation_request
request-Onward s = elim (Option-cases (row_at s.repos (current s.repos))) [
  | inl e ↦ rw (e, rotation_request) (Onward-refl s.repos)
  | inr (cur, e) ↦ rw (e, rotation_request) (ground (arith, Onward-refl s.repos))
]

accept-Onward :
    (named : Text) (s : Stub)
    → Onward s.repos (accept_offer named s (placed s.repos (on_offer s.repos))).0.repos
accept-Onward named s = elim (Option-cases (placed s.repos (on_offer s.repos))) [
  | inl e ↦ rw e (Onward-refl s.repos)
  | inr ((i, o), e) ↦ rw e (elim (Bool-cases (same_repository o.url named)) [
    | inl g ↦ rw g (
        write-Onward s.repos (on_offer s.repos) i o begin_cutover e
          (begin-Evolves o (offer-offered s.repos i o e)))
    | inr g ↦ rw g (Onward-refl s.repos)
  ])
]

cutover-Onward : (named : Text) (s : Stub) → Onward s.repos (cutover named s).0.repos
unfolding cutover
cutover-Onward named s = elim (Option-cases (row_at s.repos (current s.repos))) [
  | inl e ↦ rw (e, cutover) (Onward-refl s.repos)
  | inr (cur, e) ↦
      rw (e, cutover)
        (elim (Bool-cases (is_cutting_over cur.state && same_repository cur.url named)) [
          | inl g ↦ rw g (Onward-refl s.repos)
          | inr g ↦ rw g (accept-Onward named s)
        ])
]

let_go-Onward :
    (now : Time) (s : Stub) (o : Option ℕ)
    → Onward s.repos (let_go now s (placed s.repos o)).0.repos
let_go-Onward now s o = elim (Option-cases (placed s.repos o)) [
  | inl e ↦ rw e (Onward-refl s.repos)
  | inr ((i, r), e) ↦ rw e (write-Onward s.repos o i r (ask_release now) e (ask-Evolves now r))
]

old_bucket-Onward :
    (named : Text) (now : Time) (s : Stub) → Onward s.repos (old_bucket named now s).0.repos
unfolding old_bucket
old_bucket-Onward named now s = elim (Option-cases (placed s.repos (current s.repos))) [
  | inl e ↦ rw (e, old_bucket) (Onward-refl s.repos)
  | inr ((c, cur), e) ↦
      rw (e, old_bucket)
        (ground (arith, Onward-refl s.repos, let_go-Onward now s (previous_to c s.repos)))
]

card_issued-Onward :
    (named : Text) (now : Time) (s : Stub) → Onward s.repos (card_issued named now s).0.repos
unfolding card_issued
card_issued-Onward named now s = elim (Option-cases (placed s.repos (current s.repos))) [
  | inl e ↦ rw (e, card_issued) (Onward-refl s.repos)
  | inr ((c, cur), e) ↦
      rw (e, card_issued)
        (elim (Bool-cases (same_repository cur.url named)) [
          | inl g ↦ rw g (
              write-Onward s.repos (current s.repos) c cur (print_card now) e
                (print-Evolves now cur))
          | inr g ↦ rw g (Onward-refl s.repos)
        ])
]

modify-Onward_any :
    (i : ℕ) (f : Repo → Repo) (rs : List Repo)
    → ((r : Repo) → Evolves r (f r))
    → Onward rs (modify i f rs)
unfolding modify
modify-Onward_any i f [] h = tt
modify-Onward_any zero f (x ∷ rs) h = (h x, Onward-refl rs)
modify-Onward_any (suc i) f (x ∷ rs) h = (Evolves-refl x, modify-Onward_any i f rs h)

note_run-Onward : (e : RunEvent) (s : Stub) → Onward s.repos (note_run e s).repos
unfolding note_run
note_run-Onward e s = elim (Option-cases (find_from 0 e.repository_url s.repos)) [
  | inl g ↦ rw (g, note_run) (ground (arith, Onward-refl s.repos))
  | inr (i, g) ↦
      rw (g, note_run)
        (ground (
          arith,
          Onward-refl s.repos,
          modify-Onward_any i (note_landed e.verified) s.repos (note-Evolves e.verified),
        ))
]

admin_offer-Onward :
    (url : Text) (adopted : Bool) (now : Time) (s : Stub)
    → Onward s.repos (admin_offer url adopted now s).0.repos
unfolding admin_offer
admin_offer-Onward url adopted now s = elim (Bool-cases (is_empty url)) [
  | inl e ↦ rw e (Onward-refl s.repos)
  | inr e ↦ rw e (Onward-append s.repos _)
]

retire_from-Onward :
    (c : ℕ) (cur : Repo) (s : Stub)
    → get_elem? s.repos c ≡ some cur
    → cur.state ≡ cutting_over
    → Onward s.repos (retire_from c cur s (placed s.repos (previous_to c s.repos))).0.repos
retire_from-Onward c cur s h k = elim (Option-cases (placed s.repos (previous_to c s.repos))) [
  | inl e ↦ rw e (Onward-refl s.repos)
  | inr ((i, old), e) ↦
      let apart =
        previous_to-ne c i s.repos (placed-at s.repos (previous_to c s.repos) i old e).0 in
      rw e (
        Onward-trans s.repos (modify i retire s.repos) (modify c promote (modify i retire s.repos))
          (write-Onward s.repos (previous_to c s.repos) i old retire e (retire-Evolves old))
          (modify-Onward c promote (modify i retire s.repos) cur
            (get_elem?-modify c i retire s.repos apart ∙ h) (promote-Evolves cur k)))
]

admin_retire-Onward : (s : Stub) → Onward s.repos (admin_retire s).0.repos
unfolding admin_retire
admin_retire-Onward s = elim (Option-cases (placed s.repos (current s.repos))) [
  | inl e ↦ rw (e, admin_retire) (Onward-refl s.repos)
  | inr ((c, cur), e) ↦
      rw (e, admin_retire)
        (elim (Bool-cases (is_cutting_over cur.state)) [
          | inl g ↦ rw g (
              retire_from-Onward c cur s (placed-at s.repos (current s.repos) c cur e).1
                (is_cutting_over-eq cur.state g))
          | inr g ↦ rw g (Onward-refl s.repos)
        ])
]

point_at-Onward : (url : Text) (s : Stub) → Onward s.repos (admin_point_at url s).0.repos
unfolding admin_point_at
point_at-Onward url s = elim (Bool-cases (is_empty url)) [
  | inl n ↦ rw n (Onward-refl s.repos)
  | inr n ↦ rw n (elim (Option-cases (placed s.repos (current s.repos))) [
    | inl e ↦ rw e (Onward-refl s.repos)
    | inr ((c, cur), e) ↦ rw e (elim (Bool-cases (is_active cur.state)) [
      | inl g ↦ rw g (
          write-Onward s.repos (current s.repos) c cur (point_row url) e
            (point-Evolves url cur (is_active-eq cur.state g)))
      | inr g ↦ rw g (Onward-refl s.repos)
    ])
  ])
]

step-Onward : (c : Call) (s : Stub) → Onward s.repos (step c s).repos
unfolding step
step-Onward requests s = request-Onward s
step-Onward (cuts_over named) s = cutover-Onward named s
step-Onward (lets_go named now) s = old_bucket-Onward named now s
step-Onward (prints named now) s = card_issued-Onward named now s
step-Onward (reports e) s = note_run-Onward e s
step-Onward (offers url adopted now) s = admin_offer-Onward url adopted now s
step-Onward retires s = admin_retire-Onward s
step-Onward (points_at url) s = point_at-Onward url s

pub steps-Onward : (cs : List Call) (s : Stub) → Onward s.repos (steps cs s).repos
unfolding steps
steps-Onward [] s = Onward-refl s.repos
steps-Onward (c ∷ cs) s =
    Onward-trans s.repos (step c s).repos (steps cs (step c s)).repos (step-Onward c s)
      (steps-Onward cs (step c s))

Onward-at :
    (rs ts : List Repo) (i : ℕ) (r : Repo)
    → Onward rs ts
    → get_elem? rs i ≡ some r
    → (t : Repo) × (get_elem? ts i ≡ some t) × Evolves r t
Onward-at [] ts i r h e = cc
Onward-at (x ∷ rs) [] i r h e = absurd h
Onward-at (x ∷ rs) (y ∷ ts) zero r h e =
    (y, refl, subst (λ z. Evolves z y) (some_injective x r e) h.0)
Onward-at (x ∷ rs) (y ∷ ts) (suc i) r h e = Onward-at rs ts i r h.1 e

-- The machine may no longer create a repository in this bucket.
closed : (r t : Repo) → Evolves r t → r.snapshot ≡ true → expect_empty t ≡ false
unfolding expect_empty
closed r t (_, _, _, d) h = elim (Bool-cases (is_cutting_over t.state)) [
  | inl e ↦
      let low : rank t.state ≤ 1 = rw (is_cutting_over-eq t.state e) (omega arith) in
      let landed : t.snapshot ≡ true = d low h in rw landed (ground arith)
  | inr e ↦ rw e refl
]

-- In whatever order the machine, the harness and the run events come: a row of the table stays where it
-- is; its state goes on from offered to cutting over, active and retired and never back; a date on
-- which the machine first said it was done with it stays; and once a row says that a snapshot has
-- landed, expect_empty never holds of it again.
pub steps-RowMovesOn :
    (cs : List Call) (s : Stub) (i : ℕ) (r : Repo)
    → get_elem? s.repos i ≡ some r
    → (t : Repo) × (get_elem? (steps cs s).repos i ≡ some t)
      × (rank r.state ≤ rank t.state)
      × (is_zero r.release_asked_at ≡ false → t.release_asked_at ≡ r.release_asked_at)
      × (r.snapshot ≡ true → expect_empty t ≡ false)
steps-RowMovesOn cs s i r h =
    let (t, e, v) = Onward-at s.repos (steps cs s).repos i r (steps-Onward cs s) h in
    (t, e, v.0, v.2, closed r t v)
