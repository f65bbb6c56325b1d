-- ===== src/Stub/Retrying.antt =====
-- rotation.go of the stub: a cutover whose answer got lost.
use sion_backup.Prelude.{
  ℕ, zero, suc, ◌+◌, true, false, Option, none, some, List, [], ◌∷◌, ◌&&◌, if◌then◌else◌, ◌≡◌, refl,
  inl, inr, ap, sym, ◌∙◌, arith, get_elem?, All, Bool-cases, Option-cases,
}
use sion_backup.Prelude.Text.{Text}
use sion_backup.Stub.{
  Repo, Stub, is_cutting_over, is_active, current_from, current, on_offer, same_repository, modify,
  row_at,
}
use sion_backup.Stub.Calls.{
  placed, begin_cutover, accept_offer, cutover, Reply, no_repository, moved_to,
}
use sion_backup.Stub.Rows.{placed-at}

abbrev pub IsSettled : Repo → Type 0
IsSettled r = is_cutting_over r.state ≡ false

-- The one row that cuts over is the current one.
current_from-cutover :
    (k i : ℕ) (found : Option ℕ) (rs : List Repo) (o : Repo)
    → All IsSettled rs
    → get_elem? rs i ≡ some o
    → current_from k found (modify i begin_cutover rs) ≡ some (k + i)
unfolding current_from modify
current_from-cutover k i found [] o a e = cc
current_from-cutover k zero found (x ∷ rs) o a e = ap some (omega arith)
current_from-cutover k (suc i) found (x ∷ rs) o a e = rw a.0 (
    current_from-cutover (suc k) i (if is_active x.state then some k else found) rs o a.1 e
    ∙ ap some (omega arith))

get_elem?-cutover :
    (i : ℕ) (rs : List Repo) (o : Repo)
    → get_elem? rs i ≡ some o
    → get_elem? (modify i begin_cutover rs) i ≡ some (begin_cutover o)
unfolding modify
get_elem?-cutover i [] o e = cc
get_elem?-cutover zero (x ∷ rs) o e = cc
get_elem?-cutover (suc i) (x ∷ rs) o e = get_elem?-cutover i rs o e

-- The machine is on the row that it moved to.
row-cutover :
    (i : ℕ) (rs : List Repo) (o : Repo)
    → All IsSettled rs
    → get_elem? rs i ≡ some o
    → row_at (modify i begin_cutover rs) (current (modify i begin_cutover rs))
      ≡ some (begin_cutover o)
unfolding current
row-cutover i rs o a e =
    ap (row_at (modify i begin_cutover rs))
      (current_from-cutover 0 i none rs o a e ∙ ap some (omega arith))
    ∙ get_elem?-cutover i rs o e

no_row :
    (named : Text) (s : Stub)
    → row_at s.repos (current s.repos) ≡ none
    → cutover named s ≡ (s, no_repository)
unfolding cutover
no_row named s e = rw (e, cutover) refl

already :
    (named : Text) (s : Stub) (cur : Repo)
    → row_at s.repos (current s.repos) ≡ some cur
    → (is_cutting_over cur.state && same_repository cur.url named) ≡ true
    → cutover named s ≡ (s, moved_to cur.url)
unfolding cutover
already named s cur e g = rw (e, cutover, g) refl

not_yet :
    (named : Text) (s : Stub) (cur : Repo)
    → row_at s.repos (current s.repos) ≡ some cur
    → (is_cutting_over cur.state && same_repository cur.url named) ≡ false
    → cutover named s ≡ accept_offer named s (placed s.repos (on_offer s.repos))
unfolding cutover
not_yet named s cur e g = rw (e, cutover, g) refl

moved_eq : (a b : Text) → moved_to a ≡ moved_to b → a ≡ b
moved_eq a b h = cc

accepted_again :
    (named u : Text) (s : Stub) (o : Option (ℕ × Repo))
    → placed s.repos (on_offer s.repos) ≡ o
    → All IsSettled s.repos
    → (accept_offer named s o).1 ≡ moved_to u
    → cutover named (accept_offer named s o).0 ≡ ((accept_offer named s o).0, moved_to u)
accepted_again named u s none e a h = absurd (ground arith)
accepted_again named u s (some (i, o)) e a h = elim (Bool-cases (same_repository o.url named)) [
  | inr g ↦ absurd (ground arith)
  | inl g ↦
      let url : o.url ≡ u = ground arith in
      let row = row-cutover i s.repos o a (placed-at s.repos (on_offer s.repos) i o e).1 in
      rw g (
        already named (record s { repos = modify i begin_cutover s.repos; rotation_asked = false })
          (begin_cutover o) row g
        ∙ ap
            (λ (v : Text). (
              record s { repos = modify i begin_cutover s.repos; rotation_asked = false },
              moved_to v,
            ))
            url)
]

-- A cutover can be asked for again: where no bucket is cutting over yet and the request is answered with
-- a new bucket, the same request gets the same answer once more, from a table that it leaves alone.
pub cutover_retry :
    (named u : Text) (s : Stub)
    → All IsSettled s.repos
    → (cutover named s).1 ≡ moved_to u
    → cutover named (cutover named s).0 ≡ ((cutover named s).0, moved_to u)
cutover_retry named u s a h = elim (Option-cases (row_at s.repos (current s.repos))) [
  | inl e ↦ absurd (let k = no_row named s e in ground arith)
  | inr (cur, e) ↦ elim (Bool-cases (is_cutting_over cur.state && same_repository cur.url named)) [
    | inl g ↦
        let k = already named s cur e g in
        let url : cur.url ≡ u = moved_eq cur.url u (sym (ap (λ (x : Stub × Reply). x.1) k) ∙ h) in
        rw k (k ∙ ap (λ (v : Text). (s, moved_to v)) url)
    | inr g ↦
        let k = not_yet named s cur e g in
        rw k (
          accepted_again named u s (placed s.repos (on_offer s.repos)) refl a
            (sym (ap (λ (x : Stub × Reply). x.1) k) ∙ h))
  ]
]
