-- ===== src/SelfUpdate/Version/Order.antt =====
-- foundation/selfupdate/selfupdate.go: Newer is a strict order on the tags that parse.
use sion_backup.Prelude.{◌≡◌, refl, ◌<◌, ◌⊎◌, ◌↔◌, true, false, none, some, arith, Option}
use sion_backup.Prelude.Text.{Text}
use sion_backup.SelfUpdate.Version.{Version, parse, later, newer_of, newer}

-- The lexicographic order on the three numbers.
abbrev pub Before : Version → Version → Type 0
Before a b =
    (a.major < b.major)
    ⊎ (a.major ≡ b.major) × ((a.minor < b.minor) ⊎ (a.minor ≡ b.minor) × (a.patch < b.patch))

pub later-Before : (a b : Version) → later a b ≡ true → Before a b
unfolding later
later-Before a b h = ground arith

pub Before-later : (a b : Version) → Before a b → later a b ≡ true
unfolding later
Before-later a b h = ground arith

newer_of-Before :
    (c n : Option Version)
    → newer_of c n ≡ true
    → (a : Version) × (b : Version) × (c ≡ some a) × (n ≡ some b) × Before a b
newer_of-Before none n h = cc
newer_of-Before (some a) none h = cc
newer_of-Before (some a) (some b) h = (a, b, refl, refl, later-Before a b h)

Before-newer_of :
    (c n : Option Version) (a b : Version)
    → c ≡ some a
    → n ≡ some b
    → Before a b
    → newer_of c n ≡ true
Before-newer_of c n a b p q h = rw (p, q) (Before-later a b h)

-- A candidate is newer exactly when both tags parse and its three numbers come later in
-- lexicographic order: a tag that does not parse is never newer and never replaced.
pub newer_iff :
    (current candidate : Text)
    → (newer current candidate ≡ true) ↔ (
        (a : Version) × (b : Version) × (parse current ≡ some a)
        × (parse candidate ≡ some b)
        × Before a b)
unfolding newer
newer_iff current candidate = (
  newer_of-Before (parse current) (parse candidate),
  λ h. Before-newer_of (parse current) (parse candidate) h.0 h.1 h.2 h.3 h.4,
)

newer_of_trans :
    (a b c : Option Version) → newer_of a b ≡ true → newer_of b c ≡ true → newer_of a c ≡ true
unfolding later
newer_of_trans none b c p q = p
newer_of_trans (some x) none c p q = cc
newer_of_trans (some x) (some y) none p q = q
newer_of_trans (some x) (some y) (some z) p q = ground arith

newer_of_irrefl : (a b : Option Version) → newer_of a b ≡ true → newer_of b a ≡ false
unfolding later
newer_of_irrefl none b p = cc
newer_of_irrefl (some x) none p = cc
newer_of_irrefl (some x) (some y) p = ground arith

-- Updating is one way: newness is transitive, and a tag newer than another is never older too, so no
-- chain of installed releases returns to a version it left.
pub newer_order :
    (a b c : Text) → newer a b ≡ true → newer b c ≡ true → (newer a c ≡ true) × (newer c a ≡ false)
unfolding newer
newer_order a b c p q =
    let ac = newer_of_trans (parse a) (parse b) (parse c) p q in
    (ac, newer_of_irrefl (parse a) (parse c) ac)
