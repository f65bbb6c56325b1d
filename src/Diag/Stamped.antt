-- ===== src/Diag/Stamped.antt =====
-- diagfile.go: the names of two reports are in the order of their times.
use sion_backup.Prelude.{
  ℕ, zero, suc, ◌+◌, ◌*◌, ◌/◌, ◌%◌, ◌≤◌, ◌<◌, true, false, [], ◌∷◌, ◌++◌, ltb, ◌≡◌, refl, inl, inr,
  ap, arith, Bool-cases, length, length-append,
}
use sion_backup.Prelude.Text.{Text, codes, has_prefix}
use sion_backup.Prelude.Time.{Time, second, minute, hour, day}
use sion_backup.Diag.{Report}
use sion_backup.Diag.Files.{text_lt, name_of}
use sion_backup.Diag.Stamp.{Date, padded, date_text, stamp}

append_lt :
    (s t u v : Text) → length s ≡ length t → text_lt s t ≡ true → text_lt (s ++ u) (t ++ v) ≡ true
unfolding text_lt
append_lt [] [] u v l h = absurd (ground arith)
append_lt [] (b ∷ t) u v l h = absurd (ground arith)
append_lt (a ∷ s) [] u v l h = absurd (ground arith)
append_lt (a ∷ s) (b ∷ t) u v l h = ground (arith, append_lt s t u v)

append_lt_same : (s u v : Text) → text_lt u v ≡ true → text_lt (s ++ u) (s ++ v) ≡ true
unfolding text_lt
append_lt_same [] u v h = h
append_lt_same (a ∷ s) u v h = ground (arith, append_lt_same s u v)

-- Two texts of one length are in the order of two numbers.
record Follows (m n : ℕ) (s t : Text) : Type 0 where
  less : m < n → text_lt s t ≡ true
  same : m ≡ n → s ≡ t
  long : length s ≡ length t

digit-Follows : (m n : ℕ) → Follows m n ((48 + m) ∷ []) ((48 + n) ∷ [])
unfolding text_lt
digit-Follows m n = record {
  less = λ h. ground arith;
  same = λ e. ap (λ x. (48 + x) ∷ []) e;
  long = refl;
}

-- A field after another: the number before it counts first.
append-Follows :
    (m n a b c e : ℕ) (s t u v : Text)
    → Follows a b s t
    → Follows c e u v
    → (m < n → a ≤ b)
    → (m < n → a ≡ b → c < e)
    → (m ≡ n → (a ≡ b) × (c ≡ e))
    → Follows m n (s ++ u) (t ++ v)
append-Follows m n a b c e s t u v f g up on eq = record {
  less = λ h. elim (Bool-cases (ltb a b)) [
    | inl k ↦ append_lt s t u v f.long (f.less (ground arith))
    | inr k ↦
        let less_or_same = up h in
        let alike : a ≡ b = ground arith in
        rw (f.same alike) (append_lt_same t u v (g.less (on h alike)))
  ];
  same = λ h. let (i, j) = eq h in rw (f.same i, g.same j) refl;
  long =
      let l = f.long in let k = g.long in omega (arith, length-append s u, length-append t v, l, k);
}

mark-Follows : (m n x : ℕ) (s t : Text) → Follows m n s t → Follows m n (x ∷ s) (x ∷ t)
unfolding text_lt
mark-Follows m n x s t f = record {
  less = λ h. append_lt_same (x ∷ []) s t (f.less h);
  same = λ h. ap (λ y. x ∷ y) (f.same h);
  long = ap suc f.long;
}

-- The numbers that have so many digits.
abbrev pub room : ℕ → ℕ
room zero = 1
room (suc w) = 10 * room w

padded-Follows : (w m n : ℕ) → m < room w → n < room w → Follows m n (padded w m) (padded w n)
unfolding padded
padded-Follows zero m n h k = record {
  less = λ l. absurd (omega (arith, h, k, l));
  same = λ e. refl;
  long = refl;
}
padded-Follows (suc w) m n h k =
    append-Follows m n (m / 10) (n / 10) (m % 10) (n % 10) (padded w (m / 10)) (padded w (n / 10))
      ((48 + m % 10) ∷ []) ((48 + n % 10) ∷ [])
      (padded-Follows w (m / 10) (n / 10) (omega (arith, h)) (omega (arith, k)))
      (digit-Follows (m % 10) (n % 10)) (λ l. omega (arith, l)) (λ l e. omega (arith, l, e))
      (λ e. (omega (arith, e), omega (arith, e)))

-- The days of the years that have four digits.
abbrev pub last_day : ℕ
last_day = 3652059

abbrev pub date_number : Date → ℕ
date_number d = (d.year * 100 + d.month) * 100 + d.day_of_month

-- What package time documents of a date in UTC: its parts, and that a later day has a later date.
pub record IsCalendar (date : ℕ → Date) : Type 0 where
  pub years : (d : ℕ) → d < last_day → (date d).year < 10000
  pub months : (d : ℕ) → d < last_day → (date d).month ≤ 12
  pub days : (d : ℕ) → d < last_day → (date d).day_of_month ≤ 31
  pub moves_on : (d e : ℕ) → d < e → e < last_day → date_number (date d) < date_number (date e)

date_text-Follows :
    (date : ℕ → Date) (d e : ℕ)
    → IsCalendar date
    → d < last_day
    → e < last_day
    → Follows
        (date_number (date d))
        (date_number (date e))
        (date_text (date d))
        (date_text (date e))
unfolding date_text
date_text-Follows date d e c h k =
    let a = date d in
    let b = date e in
    let y1 = c.years d h in
    let y2 = c.years e k in
    let m1 = c.months d h in
    let m2 = c.months e k in
    let d1 = c.days d h in
    let d2 = c.days e k in
    append-Follows (date_number a) (date_number b) (a.year * 100 + a.month) (b.year * 100 + b.month)
      a.day_of_month b.day_of_month (padded 4 a.year ++ padded 2 a.month)
      (padded 4 b.year ++ padded 2 b.month) (padded 2 a.day_of_month) (padded 2 b.day_of_month)
      (append-Follows (a.year * 100 + a.month) (b.year * 100 + b.month) a.year b.year a.month
        b.month (padded 4 a.year) (padded 4 b.year) (padded 2 a.month) (padded 2 b.month)
        (padded-Follows 4 a.year b.year y1 y2)
        (padded-Follows 2 a.month b.month (omega arith) (omega arith)) (λ l. omega arith)
        (λ l i. omega arith) (λ i. (omega arith, omega arith)))
      (padded-Follows 2 a.day_of_month b.day_of_month (omega arith) (omega arith))
      (λ l. omega arith) (λ l i. omega arith) (λ i. (omega arith, omega arith))

day-Follows :
    (date : ℕ → Date) (d e : ℕ)
    → IsCalendar date
    → d < last_day
    → e < last_day
    → Follows d e (date_text (date d)) (date_text (date e))
day-Follows date d e c h k =
    let f = date_text-Follows date d e c h k in
    record {
      less = λ l. f.less (c.moves_on d e l k);
      same = λ i. ap (λ x. date_text (date x)) i;
      long = f.long;
    }

-- A field of the clock: what is left of a larger unit.
clock-Follows :
    (w m n a b c e : ℕ) (s t : Text)
    → Follows a b s t
    → c < room w
    → e < room w
    → (m < n → a ≤ b)
    → (m < n → a ≡ b → c < e)
    → (m ≡ n → (a ≡ b) × (c ≡ e))
    → Follows m n (s ++ padded w c) (t ++ padded w e)
clock-Follows w m n a b c e s t f h k =
    append-Follows m n a b c e s t (padded w c) (padded w e) f (padded-Follows w c e h k)

-- An instant before the end of the year 9999.
abbrev pub IsDated : Time → Type 0
IsDated t = t / day < last_day

stamp-Follows :
    (date : ℕ → Date) (t u : Time)
    → IsCalendar date
    → IsDated t
    → IsDated u
    → Follows (t / 1000000) (u / 1000000) (stamp date t) (stamp date u)
unfolding stamp
stamp-Follows date t u c h k =
    let days = day-Follows date (t / day) (u / day) c h k in
    let hours =
      append-Follows (t / hour) (u / hour) (t / day) (u / day) (t / hour % 24) (u / hour % 24)
        (date_text (date (t / day))) (date_text (date (u / day))) (b'T' ∷ padded 2 (t / hour % 24))
        (b'T' ∷ padded 2 (u / hour % 24)) days
        (mark-Follows (t / hour % 24) (u / hour % 24) b'T' (padded 2 (t / hour % 24))
          (padded 2 (u / hour % 24))
          (padded-Follows 2 (t / hour % 24) (u / hour % 24) (omega arith) (omega arith)))
        (λ l. omega arith) (λ l i. omega arith) (λ i. (omega arith, omega arith)) in
    let minutes =
      clock-Follows 2 (t / minute) (u / minute) (t / hour) (u / hour) (t / minute % 60)
        (u / minute % 60) (date_text (date (t / day)) ++ b'T' ∷ padded 2 (t / hour % 24))
        (date_text (date (u / day)) ++ b'T' ∷ padded 2 (u / hour % 24)) hours (omega arith)
        (omega arith) (λ l. omega arith) (λ l i. omega arith) (λ i. (omega arith, omega arith)) in
    let seconds =
      clock-Follows 2 (t / second) (u / second) (t / minute) (u / minute) (t / second % 60)
        (u / second % 60)
        ((date_text (date (t / day)) ++ b'T' ∷ padded 2 (t / hour % 24))
          ++ padded 2 (t / minute % 60))
        ((date_text (date (u / day)) ++ b'T' ∷ padded 2 (u / hour % 24))
          ++ padded 2 (u / minute % 60))
        minutes (omega arith) (omega arith) (λ l. omega arith) (λ l i. omega arith)
        (λ i. (omega arith, omega arith)) in
    append-Follows (t / 1000000) (u / 1000000) (t / second) (u / second) (t / 1000000 % 1000)
      (u / 1000000 % 1000)
      (((date_text (date (t / day)) ++ b'T' ∷ padded 2 (t / hour % 24))
          ++ padded 2 (t / minute % 60))
        ++ padded 2 (t / second % 60))
      (((date_text (date (u / day)) ++ b'T' ∷ padded 2 (u / hour % 24))
          ++ padded 2 (u / minute % 60))
        ++ padded 2 (u / second % 60))
      (b'.' ∷ padded 3 (t / 1000000 % 1000)) (b'.' ∷ padded 3 (u / 1000000 % 1000)) seconds
      (mark-Follows (t / 1000000 % 1000) (u / 1000000 % 1000) b'.' (padded 3 (t / 1000000 % 1000))
        (padded 3 (u / 1000000 % 1000))
        (padded-Follows 3 (t / 1000000 % 1000) (u / 1000000 % 1000) (omega arith) (omega arith)))
      (λ l. omega arith) (λ l i. omega arith) (λ i. (omega arith, omega arith))

-- The name of an earlier report comes first, whatever follows the time in it.
pub name_of_earlier :
    (date : ℕ → Date) (v w : Text) (x y : Report)
    → IsCalendar date
    → IsDated x.occurred_at
    → IsDated y.occurred_at
    → x.occurred_at / 1000000 < y.occurred_at / 1000000
    → text_lt (name_of date v x) (name_of date w y) ≡ true
unfolding name_of
name_of_earlier date v w x y c h k l =
    let f = stamp-Follows date x.occurred_at y.occurred_at c h k in
    append_lt (stamp date x.occurred_at) (stamp date y.occurred_at) (b'-' ∷ v ++ codes ".json")
      (b'-' ∷ w ++ codes ".json") f.long (f.less l)

-- A name begins with a digit.
pub name_of_visible :
    (date : ℕ → Date) (v : Text) (x : Report) → has_prefix (name_of date v x) (codes ".") ≡ false
unfolding name_of stamp date_text padded has_prefix
name_of_visible date v x = ground arith
