-- ===== src/StatusPage/Boxes.antt =====
-- setup.go and junk.go: the box "leave out the usual junk".
use mathlib.Core.List.{append-nil}
use sion_backup.Prelude.{
  Bool, true, false, List, [], ◌∷◌, ◌++◌, ◌≡◌, inl, inr, refl, ap, sym, ◌∙◌, arith, Bool-cases,
  subst,
}
use sion_backup.Prelude.Text.{Text, text_eq, text_eq→eq, text_eq_refl}
use sion_backup.Survey.Junk.{holds, without_junk, all_held, has_junk}
use sion_backup.StatusPage.{effective_excludes}

all_held-cons :
    (x : Text) (have js : List Text) → all_held have js ≡ true → all_held (x ∷ have) js ≡ true
unfolding all_held holds
all_held-cons x have [] h = refl
all_held-cons x have (j ∷ js) h = ground (arith, all_held-cons x have js)

all_held_self : (js : List Text) → all_held js js ≡ true
unfolding all_held holds
all_held_self [] = refl
all_held_self (j ∷ js) = rw (text_eq_refl j) (all_held-cons j js js (all_held_self js))

all_held-append :
    (xs have js : List Text) → all_held have js ≡ true → all_held (xs ++ have) js ≡ true
all_held-append [] have js h = h
all_held-append (x ∷ xs) have js h = all_held-cons x (xs ++ have) js (all_held-append xs have js h)

-- None of the junk is left.
without_junk-none :
    (junk es : List Text) (x : Text) → holds junk x ≡ true → holds (without_junk junk es) x ≡ false
unfolding without_junk holds
without_junk-none junk [] x h = refl
without_junk-none junk (e ∷ es) x h = elim (Bool-cases (holds junk e)) [
  | inl g ↦ rw g (without_junk-none junk es x h)
  | inr g ↦ rw g (elim (Bool-cases (text_eq e x)) [
    | inl k ↦ absurd (
        let s : holds junk e ≡ true = subst (λ y. holds junk y ≡ true) (sym (text_eq→eq e x k)) h in
        ground arith)
    | inr k ↦ rw k (without_junk-none junk es x h)
  ])
]

without_junk-twice :
    (junk es : List Text) → without_junk junk (without_junk junk es) ≡ without_junk junk es
unfolding without_junk
without_junk-twice junk [] = refl
without_junk-twice junk (e ∷ es) = elim (Bool-cases (holds junk e)) [
  | inl g ↦ rw g (without_junk-twice junk es)
  | inr g ↦ rw g (rw g (ap (λ (l : List Text). e ∷ l) (without_junk-twice junk es)))
]

without_junk-append :
    (junk es fs : List Text)
    → without_junk junk (es ++ fs) ≡ without_junk junk es ++ without_junk junk fs
unfolding without_junk
without_junk-append junk [] fs = refl
without_junk-append junk (e ∷ es) fs = elim (Bool-cases (holds junk e)) [
  | inl g ↦ rw g (without_junk-append junk es fs)
  | inr g ↦ rw g (ap (λ (l : List Text). e ∷ l) (without_junk-append junk es fs))
]

without_junk-all : (junk js : List Text) → all_held junk js ≡ true → without_junk junk js ≡ []
unfolding without_junk all_held
without_junk-all junk [] h = refl
without_junk-all junk (j ∷ js) h = elim (Bool-cases (holds junk j)) [
  | inl g ↦ rw g (without_junk-all junk js (ground arith))
  | inr g ↦ absurd (ground arith)
]

add_and_remove :
    (junk es : List Text) → without_junk junk (without_junk junk es ++ junk) ≡ without_junk junk es
add_and_remove junk es =
    without_junk-append junk (without_junk junk es) junk
    ∙ ap (λ (l : List Text). without_junk junk (without_junk junk es) ++ l)
        (without_junk-all junk junk (all_held_self junk))
    ∙ append-nil (without_junk junk (without_junk junk es))
    ∙ without_junk-twice junk es

has_junk-without :
    (j : Text) (js es : List Text) → has_junk (j ∷ js) (without_junk (j ∷ js) es) ≡ false
unfolding has_junk all_held
has_junk-without j js es =
    let own : holds (j ∷ js) j ≡ true = unfold holds in rw (text_eq_refl j) refl in
    rw (without_junk-none (j ∷ js) es j own) refl

has_junk-added :
    (j : Text) (js es : List Text) → has_junk (j ∷ js) (without_junk (j ∷ js) es ++ j ∷ js) ≡ true
unfolding has_junk
has_junk-added j js es =
    all_held-append (without_junk (j ∷ js) es) (j ∷ js) (j ∷ js) (all_held_self (j ∷ js))

-- The box does what it says: of a list of patterns that is saved with the box ticked or not, the page
-- reads the box back as it was left; and the patterns that are no junk are the ones from before,
-- in their order. The junk list is not empty.
pub junk_box_returns :
    (j : Text) (js es : List Text) (ticked : Bool)
    → (has_junk (j ∷ js) (effective_excludes (j ∷ js) es ticked) ≡ ticked)
      × (without_junk (j ∷ js) (effective_excludes (j ∷ js) es ticked) ≡ without_junk (j ∷ js) es)
unfolding effective_excludes
junk_box_returns j js es true = elim (Bool-cases (has_junk (j ∷ js) es)) [
  | inl h ↦ rw h (h, refl)
  | inr h ↦ rw h (has_junk-added j js es, add_and_remove (j ∷ js) es)
]
junk_box_returns j js es false = elim (Bool-cases (has_junk (j ∷ js) es)) [
  | inl h ↦ rw h (has_junk-without j js es, without_junk-twice (j ∷ js) es)
  | inr h ↦ rw h (h, refl)
]
