-- ===== src/Plan/Schedule/TimesLaws.antt =====
-- business/domain/plan/planbus/schedule.go: sameTimes compares two lists of times as bags.
use sion_backup.Prelude.{
  ℕ, suc, ◌+◌, ◌≤◌, ◌≡◌, ◌↔◌, true, List, [], ◌∷◌, if◌then◌else◌, length, arith, refl,
}
use sion_backup.Prelude.Text.{Text, text_eq, text_eq_iff, text_eq_refl, trim_space}
use sion_backup.Plan.Schedule.Presets.{Counts, plus_one, minus_one, tally, used_up, same_times}

-- How often a text stands in a list once its entries are trimmed.
unfoldable pub count : Text → List Text → ℕ
count k [] = 0
count k (t ∷ ts) = if text_eq (trim_space t) k then suc (count k ts) else count k ts

tally-count : (m : Counts) (ts : List Text) (k : Text) → tally m ts k ≡ m k + count k ts
unfolding tally count
tally-count m [] k = omega arith
tally-count m (t ∷ ts) k = ground (arith, tally-count (plus_one (trim_space t) m) ts k)

-- The counts that `used_up` still has to use.
used_up_le : (m : Counts) (ts : List Text) (k : Text) → used_up m ts ≡ true → count k ts ≤ m k
unfolding used_up count
used_up_le m [] k h = omega arith
used_up_le m (t ∷ ts) k h =
    ground (arith, text_eq_iff (trim_space t) k, used_up_le (minus_one (trim_space t) m) ts k)

used_up_ge : (m : Counts) (ts : List Text) → ((k : Text) → count k ts ≤ m k) → used_up m ts ≡ true
unfolding used_up count
used_up_ge m [] h = refl
used_up_ge m (t ∷ ts) h =
    let least : 1 ≤ m (trim_space t) =
      ground (arith, h (trim_space t), text_eq_refl (trim_space t)) in
    let rest : used_up (minus_one (trim_space t) m) ts ≡ true =
      used_up_ge (minus_one (trim_space t) m) ts (λ k. ground (arith, h k)) in
    ground arith

-- A list without its first entry that trims to `k`.
erase : Text → List Text → List Text
erase k [] = []
erase k (t ∷ ts) = if text_eq (trim_space t) k then ts else t ∷ erase k ts

count-erase :
    (k j : Text) (ts : List Text)
    → 1 ≤ count k ts
    → count j ts ≡ (if text_eq k j then suc (count j (erase k ts)) else count j (erase k ts))
unfolding count erase
count-erase k j [] h = absurd (omega arith)
count-erase k j (t ∷ ts) h = ground (
  arith,
  text_eq_iff (trim_space t) k,
  text_eq_iff (trim_space t) j,
  text_eq_iff k j,
  count-erase k j ts,
)

length-erase : (k : Text) (ts : List Text) → 1 ≤ count k ts → length ts ≡ suc (length (erase k ts))
unfolding count erase
length-erase k [] h = absurd (omega arith)
length-erase k (t ∷ ts) h = ground (arith, length-erase k ts)

count_first : (t : Text) (ts : List Text) → 1 ≤ count (trim_space t) (t ∷ ts)
unfolding count
count_first t ts = ground (arith, text_eq_refl (trim_space t))

count-cons :
    (k t : Text) (ts : List Text)
    → count k (t ∷ ts) ≡ (if text_eq (trim_space t) k then suc (count k ts) else count k ts)
unfolding count
count-cons k t ts = refl

-- Two lists of one length, the one contained in the other as a bag, are the same bag.
bag_eq :
    (a b : List Text)
    → length a ≡ length b
    → ((k : Text) → count k a ≤ count k b)
    → (k : Text) → count k a ≡ count k b
bag_eq [] [] l h k = refl
bag_eq [] (t ∷ ts) l h k = absurd (omega arith)
bag_eq (t ∷ ts) b l h k =
    let there : 1 ≤ count (trim_space t) b = omega (arith, count_first t ts, h (trim_space t)) in
    let shorter : length ts ≡ length (erase (trim_space t) b) =
      omega (arith, length-erase (trim_space t) b there) in
    let fewer : (j : Text) → count j ts ≤ count j (erase (trim_space t) b) =
      λ j. ground (arith, h j, count-cons j t ts, count-erase (trim_space t) j b there) in
    ground (
      arith,
      bag_eq ts (erase (trim_space t) b) shorter fewer k,
      count-cons k t ts,
      count-erase (trim_space t) k b there,
    )

same_bag : (a b : List Text) → same_times a b ≡ true → (k : Text) → count k a ≡ count k b
unfolding same_times
same_bag a b h =
    bag_eq a b (ground arith)
      λ k. ground (arith, used_up_le (tally (λ j. 0) b) a k, tally-count (λ j. 0) b k)

length-count : (a b : List Text) → ((k : Text) → count k a ≡ count k b) → length a ≡ length b
length-count [] [] h = refl
length-count [] (t ∷ ts) h = absurd (omega (arith, h (trim_space t), count_first t ts, empty t))
  where
    empty : (t : Text) → count (trim_space t) [] ≡ 0
    empty t = unfold count in refl
length-count (t ∷ ts) b h =
    let there : 1 ≤ count (trim_space t) b = omega (arith, count_first t ts, h (trim_space t)) in
    let rest : (j : Text) → count j ts ≡ count j (erase (trim_space t) b) =
      λ j. ground (arith, h j, count-cons j t ts, count-erase (trim_space t) j b there) in
    omega
      (arith, length-count ts (erase (trim_space t) b) rest, length-erase (trim_space t) b there)

-- Two lists of times are the same exactly when, once their entries are trimmed, every text stands
-- in both equally often: order and surrounding space do not matter, and nothing else is ignored.
pub same_times_iff :
    (a b : List Text) → (same_times a b ≡ true) ↔ ((k : Text) → count k a ≡ count k b)
same_times_iff a b = (same_bag a b, λ h. same_of h)
  where
    same_of : ((k : Text) → count k a ≡ count k b) → same_times a b ≡ true
    same_of h =
        let e : length a ≡ length b = length-count a b h in
        let u : used_up (tally (λ j. 0) b) a ≡ true =
          used_up_ge (tally (λ j. 0) b) a (λ k. omega (arith, h k, tally-count (λ j. 0) b k)) in
        unfold same_times in ground arith
