-- ===== src/SelfUpdate/Refused/Parsing.antt =====
-- foundation/selfupdate/probation.go: Refused reads back the list that refuse writes.
use sion_backup.Prelude.{ℕ, Bool, true, false, List, [], ◌∷◌, ◌++◌, All, ◌≡◌, refl, ◌==◌, ap, ◌∙◌}
use sion_backup.Prelude.Text.{
  Text, is_empty, lines, trim_space, trim_left, trim_right, is_space, join,
}
use mathlib.Core.List.{append_assoc}
use sion_backup.SelfUpdate.Refused.{keep_texts}

abbrev pub NoFeed : ℕ → Type 0
NoFeed c = (c == 10) ≡ false

abbrev pub space_first : Text → Bool
space_first [] = true
space_first (c ∷ _) = is_space c

-- A version as a tag has it: not empty, trimmed, and without a line feed.
pub record IsClean (v : Text) : Type 0 where
  pub one_line : All NoFeed v
  pub first : space_first v ≡ false
  pub trimmed : trim_right is_space v ≡ v

lines_line : (w rest : Text) → All NoFeed w → lines (w ++ 10 ∷ rest) ≡ (w ++ 10 ∷ []) ∷ lines rest
unfolding lines
lines_line [] rest h = refl
lines_line (c ∷ w) rest h = rw (h.0, lines_line w rest h.1)

trim_right_feed : (w : Text) → trim_right is_space (w ++ 10 ∷ []) ≡ trim_right is_space w
unfolding trim_right is_space
trim_right_feed [] = refl
trim_right_feed (c ∷ w) = rw (trim_right_feed w)

trim_space_feed : (v : Text) → IsClean v → trim_space (v ++ 10 ∷ []) ≡ v
unfolding trim_space trim_left
trim_space_feed [] h = cc
trim_space_feed (c ∷ v) h = rw h.first (trim_right_feed (c ∷ v) ∙ h.trimmed)

is_empty_clean : (v : Text) → IsClean v → is_empty v ≡ false
is_empty_clean [] h = cc
is_empty_clean (c ∷ v) h = refl

keep_line :
    (v rest : Text) → IsClean v → keep_texts (lines (v ++ 10 ∷ rest)) ≡ v ∷ keep_texts (lines rest)
keep_line v rest h = rw (lines_line v rest h.one_line, trim_space_feed v h, is_empty_clean v h) refl

-- Reading the written list back, whatever clean versions it holds.
pub keep-join :
    (v : Text) (vs : List Text)
    → All IsClean (v ∷ vs)
    → keep_texts (lines (join 10 (v ∷ vs) ++ 10 ∷ [])) ≡ v ∷ vs
unfolding join
keep-join v [] h = keep_line v [] h.0 ∙ (unfold lines in refl)
keep-join v (w ∷ ws) h =
    rw append_assoc (keep_line v (join 10 (w ∷ ws) ++ 10 ∷ []) h.0)
    ∙ ap (λ ls. v ∷ ls) (keep-join w ws h.1)
