-- ===== src/SelfUpdate/Version.antt =====
-- foundation/selfupdate/selfupdate.go: parse and Newer.
pub mod Order
use sion_backup.Prelude.{
  ℕ, Bool, true, false, Option, none, some, List, [], ◌∷◌, ltb, if◌then◌else◌, ℤ, pos, negsuc,
}
use sion_backup.Prelude.Text.{Text, trim_space, trim_prefix_char, split, atoi}

-- The three numbers of "v1.4.0".
pub record Version : Type 0 where
  pub major : ℕ
  pub minor : ℕ
  pub patch : ℕ

-- One part: an integer that is not negative.
abbrev pub nonnegative : Option ℤ → Option ℕ
nonnegative (some (pos n)) = some n
nonnegative (some (negsuc n)) = none
nonnegative none = none

abbrev pub of_numbers : Option ℕ → Option ℕ → Option ℕ → Option Version
of_numbers (some a) (some b) (some c) = some (record { major = a; minor = b; patch = c })
of_numbers _ _ _ = none

abbrev pub of_parts : List Text → Option Version
of_parts (a ∷ b ∷ c ∷ []) =
    of_numbers (nonnegative (atoi a)) (nonnegative (atoi b)) (nonnegative (atoi c))
of_parts _ = none

unfoldable pub parse : Text → Option Version
parse v = of_parts (split b'.' (trim_prefix_char b'v' (trim_space v)))

-- The loop over the three numbers: the first that differs decides.
unfoldable pub later : Version → Version → Bool
later c n =
    if ltb c.major n.major
    then true
    else if ltb n.major c.major
    then false
    else if ltb c.minor n.minor
    then true
    else if ltb n.minor c.minor
    then false
    else if ltb c.patch n.patch
    then true
    else if ltb n.patch c.patch
    then false
    else false

abbrev pub newer_of : Option Version → Option Version → Bool
newer_of none n = false
newer_of (some c) none = false
newer_of (some c) (some n) = later c n

unfoldable pub newer : Text → Text → Bool
unfolding later
newer current candidate = newer_of (parse current) (parse candidate)
