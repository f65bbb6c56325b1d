-- ===== src/SelfUpdate/Refused/Cleaning.antt =====
-- foundation/selfupdate/probation.go: what Refused returns is clean, whatever the file holds.
use sion_backup.Prelude.{
  ℕ, false, Option, none, some, List, [], ◌∷◌, All, ◌≡◌, refl, ◌==◌, arith, ◌⊎◌, inl, inr,
  Bool-cases,
}
use sion_backup.Prelude.Text.{
  Text, is_empty, lines, trim_space, trim_left, trim_right, is_space, cons_head, keep_before,
}
use sion_backup.SelfUpdate.Refused.{keep_texts, refused_lines}
use sion_backup.SelfUpdate.Refused.Parsing.{IsClean, NoFeed, space_first}

-- A line feed stands at most at the end.
FeedLast : Text → Type 0
FeedLast [] = Unit
FeedLast (c ∷ s) = ((c == 10) ≡ false) × FeedLast s ⊎ (s ≡ [])

cons_head-FeedLast :
    (c : ℕ) (ls : List Text) → (c == 10) ≡ false → All FeedLast ls → All FeedLast (cons_head c ls)
unfolding FeedLast
cons_head-FeedLast c [] h a = (inr refl, tt)
cons_head-FeedLast c (l ∷ ls) h a = (inl (h, a.0), a.1)

lines-FeedLast : (s : Text) → All FeedLast (lines s)
unfolding lines FeedLast
lines-FeedLast [] = tt
lines-FeedLast (c ∷ s) = elim (Bool-cases (c == 10)) [
  | inl e ↦ rw e (inr refl, lines-FeedLast s)
  | inr e ↦ rw e (cons_head-FeedLast c (lines s) e (lines-FeedLast s))
]

trim_left-FeedLast : (s : Text) → FeedLast s → FeedLast (trim_left is_space s)
unfolding trim_left FeedLast
trim_left-FeedLast [] h = tt
trim_left-FeedLast (c ∷ s) h = elim (Bool-cases (is_space c)) [
  | inl e ↦ rw e (trim_left-FeedLast s (tail_of h))
  | inr e ↦ rw e h
]
  where
    tail_of : ((c == 10) ≡ false) × FeedLast s ⊎ (s ≡ []) → FeedLast s
    tail_of (inl g) = g.1
    tail_of (inr g) = rw g tt

trim_right-NoFeed : (s : Text) → FeedLast s → All NoFeed (trim_right is_space s)
unfolding trim_right FeedLast is_space
trim_right-NoFeed [] h = tt
trim_right-NoFeed (c ∷ s) (inl h) = keep (trim_right is_space s) (trim_right-NoFeed s h.1)
  where
    keep : (r : Text) → All NoFeed r → All NoFeed (keep_before is_space c r)
    keep [] a = elim (Bool-cases (is_space c)) [ inl e ↦ rw e tt | inr e ↦ rw e (h.0, tt) ]
    keep (d ∷ r) a = (h.0, a)
trim_right-NoFeed (c ∷ s) (inr h) = rw (h, trim_right) (single c)
  where
    single : (c : ℕ) → All NoFeed (keep_before is_space c [])
    single c = elim (Bool-cases (is_space c)) [ inl e ↦ rw e tt | inr e ↦ rw e (ground arith, tt) ]

trim_right_idem : (s : Text) → trim_right is_space (trim_right is_space s) ≡ trim_right is_space s
unfolding trim_right
trim_right_idem [] = refl
trim_right_idem (c ∷ s) = keep (trim_right is_space s) (trim_right_idem s)
  where
    keep :
        (r : Text)
        → trim_right is_space r ≡ r
        → trim_right is_space (keep_before is_space c r) ≡ keep_before is_space c r
    keep [] a = elim (Bool-cases (is_space c)) [ inl e ↦ rw e refl | inr e ↦ rw e (rw e refl) ]
    keep (d ∷ r) a = rw a refl

first_of_trim_left :
    (s : Text) → (trim_left is_space s ≡ []) ⊎ (space_first (trim_left is_space s) ≡ false)
unfolding trim_left
first_of_trim_left [] = inl refl
first_of_trim_left (c ∷ s) = elim (Bool-cases (is_space c)) [
  | inl e ↦ rw e (first_of_trim_left s)
  | inr e ↦ rw e (inr e)
]

-- Trimming on the right keeps a first character that is no space.
first_of_trim_right :
    (s : Text) → space_first s ≡ false → space_first (trim_right is_space s) ≡ false
unfolding trim_right
first_of_trim_right [] h = cc
first_of_trim_right (c ∷ s) h = keep (trim_right is_space s)
  where
    keep : (r : Text) → space_first (keep_before is_space c r) ≡ false
    keep [] = rw h h
    keep (d ∷ r) = h

trim_space-IsClean :
    (l : Text) → FeedLast l → is_empty (trim_space l) ≡ false → IsClean (trim_space l)
unfolding trim_space
trim_space-IsClean l h n = elim (first_of_trim_left l) [
  | inl e ↦ absurd_empty e
  | inr e ↦ record {
    one_line = trim_right-NoFeed (trim_left is_space l) (trim_left-FeedLast l h);
    first = first_of_trim_right (trim_left is_space l) e;
    trimmed = trim_right_idem (trim_left is_space l);
  }
]
  where
    absurd_empty : trim_left is_space l ≡ [] → IsClean (trim_right is_space (trim_left is_space l))
    absurd_empty e = cc

keep_texts-IsClean : (ls : List Text) → All FeedLast ls → All IsClean (keep_texts ls)
keep_texts-IsClean [] h = tt
keep_texts-IsClean (l ∷ ls) h = elim (Bool-cases (is_empty (trim_space l))) [
  | inl e ↦ rw e (keep_texts-IsClean ls h.1)
  | inr e ↦ rw e (trim_space-IsClean l h.0 e, keep_texts-IsClean ls h.1)
]

pub refused_lines-IsClean : (blob : Option Text) → All IsClean (refused_lines blob)
unfolding refused_lines
refused_lines-IsClean none = tt
refused_lines-IsClean (some t) = keep_texts-IsClean (lines t) (lines-FeedLast t)
