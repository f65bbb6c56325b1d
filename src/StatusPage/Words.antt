-- ===== src/StatusPage/Words.antt =====
-- humanBytes, which three packages declare alike (app/domain/statusapp/funcs.go, cmd/sion-backup/run.go,
-- business/domain/backup/backupbus/backupbus.go), and humanDuration and plural of funcs.go.
use native.Mathlib.Nat.{mul-le-mul, mul_assoc, mul_comm}
use sion_backup.Prelude.{
  ℕ, zero, suc, ◌+◌, ◌*◌, ◌/◌, ◌≤◌, ◌<◌, false, Option, none, some, [], ◌∷◌, ◌++◌, ℤ, pos, negsuc,
  if◌then◌else◌, ltb, leb, ◌==◌, ◌≡◌, inl, inr, arith, Bool-cases, get_elem?,
}
use sion_backup.Prelude.Text.{Text, codes, itoa, max_int}
use sion_backup.Prelude.Time.{Duration, minute, hour}

-- The loop: the value left, the divisor and the place of the letter; `none` if the rounds run out.
unfoldable pub unit_from : ℕ → ℕ → ℕ → ℕ → Option (ℕ × ℕ)
unit_from zero v div exp = none
unit_from (suc rounds) v div exp =
    let more = unit_from rounds (v / 1024) (div * 1024) (suc exp) in
    if leb 1024 v then more else some (div, exp)

-- The divisor and the letter's place; six rounds are enough for an int64, as below.
unfoldable pub unit_of : ℕ → Option (ℕ × ℕ)
unfolding unit_from
unit_of n = unit_from 6 (n / 1024) 1024 0

abbrev pub letters : Text
letters = codes "KMGTPE"

abbrev pub letter_text : Option ℕ → Text
letter_text none = []
letter_text (some c) = c ∷ codes "iB"

-- `tenths`: the quotient of two numbers as float64, written with one decimal.
abbrev pub sized : (ℕ → ℕ → Text) → ℕ → Option (ℕ × ℕ) → Text
sized tenths n none = []
sized tenths n (some (div, exp)) = tenths n div ++ 32 ∷ letter_text (get_elem? letters exp)

unfoldable pub human_bytes : (ℕ → ℕ → Text) → ℤ → Text
unfolding unit_of
human_bytes tenths (negsuc n) = itoa (negsuc n) ++ codes " B"
human_bytes tenths (pos n) =
    if ltb n 1024 then itoa (pos n) ++ codes " B" else sized tenths n (unit_of n)

unfoldable pub plural : ℕ → Text → Text
plural n word = itoa (pos n) ++ 32 ∷ (if n == 1 then word else word ++ codes "s")

unfoldable pub human_duration : Duration → Text
unfolding plural
human_duration (negsuc n) = codes "in the future"
human_duration (pos d) =
    if ltb d minute
    then codes "less than a minute"
    else if ltb d hour
    then plural (d / minute) (codes "minute")
    else if ltb d (48 * hour)
    then plural (d / hour) (codes "hour")
    else plural (d / hour / 24) (codes "day")

abbrev ceiling : ℕ → ℕ
ceiling zero = 1024
ceiling (suc k) = 1024 * ceiling k

-- The divisor and the letter suit the number.
abbrev pub Fits : ℕ → ℕ → Option (ℕ × ℕ) → Type 0
Fits n top none = ⊥
Fits n top (some (div, exp)) = (div ≤ n) × (n < 1024 * div) × (exp ≤ top)

stops :
    (n v div exp top : ℕ)
    → 1 ≤ v
    → v < 1024
    → v * div ≤ n
    → n < suc v * div
    → exp ≤ top
    → Fits n top (some (div, exp))
stops n v div exp top a b c d e =
    let low : 1 * div ≤ v * div = mul-le-mul a (omega arith) in
    let high : suc v * div ≤ 1024 * div = mul-le-mul (omega arith) (omega arith) in
    (omega arith, omega arith, e)

unit_from-Fits :
    (k n v div exp top : ℕ)
    → v < ceiling k
    → 1 ≤ v
    → v * div ≤ n
    → n < suc v * div
    → exp + k ≤ top
    → Fits n top (unit_from (suc k) v div exp)
unfolding unit_from
unit_from-Fits zero n v div exp top h a c d e =
    let small : leb 1024 v ≡ false = ground arith in
    rw small (stops n v div exp top a h c d (omega arith))
unit_from-Fits (suc k) n v div exp top h a c d e = elim (Bool-cases (leb 1024 v)) [
  | inl g ↦
      let big : 1024 ≤ v = ground arith in
      let less : v / 1024 * 1024 * div ≤ v * div = mul-le-mul (omega arith) (omega arith) in
      let more : suc v * div ≤ (suc (v / 1024) * 1024) * div =
        mul-le-mul (omega arith) (omega arith) in
      let l = mul_assoc (v / 1024) 1024 div in
      let m = mul_assoc (suc (v / 1024)) 1024 div in
      let low : v / 1024 * (div * 1024) ≤ n = rw (mul_comm div 1024) (omega arith) in
      let high : n < suc (v / 1024) * (div * 1024) = rw (mul_comm div 1024) (omega arith) in
      rw g (
        unit_from-Fits k n (v / 1024) (div * 1024) (suc exp) top (omega arith) (omega arith) low
          high (omega arith))
  | inr g ↦ rw g (stops n v div exp top a (ground arith) c d (omega arith))
]

-- The loop that picks the unit of a size ends: for an int64 of 1024 or more it takes six rounds at most,
-- and then the divisor is not above the number, so it has not overflowed, the number is less than
-- 1024 times the divisor, and the letter stands in the text of the six letters.
pub unit_of-Fits : (n : ℕ) → 1024 ≤ n → n ≤ max_int → Fits n 5 (unit_of n)
unfolding unit_of
unit_of-Fits n h k =
    unit_from-Fits 5 n (n / 1024) 1024 0 5 (omega arith) (omega arith) (omega arith) (omega arith)
      (omega arith)
