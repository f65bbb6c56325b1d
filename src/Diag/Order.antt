-- ===== src/Diag/Order.antt =====
-- The order of the names in a directory of reports, and what writing and dropping an entry make of it.
use sion_backup.Prelude.{
  true, false, List, [], ◌∷◌, if◌then◌else◌, ◌≡◌, refl, inl, inr, ap, sym, ◌∙◌, arith, Bool-cases,
  subst,
}
use sion_backup.Prelude.Text.{Text, text_eq, text_eq→eq, text_eq_refl}
use sion_backup.Diag.Files.{
  Entry, Dir, text_lt, write_entry, drop_entry, is_report_name, report_names, sorted_in, sort_names,
}

pub lt_irrefl : (s : Text) → text_lt s s ≡ false
unfolding text_lt
lt_irrefl [] = refl
lt_irrefl (a ∷ s) = ground (arith, lt_irrefl s)

pub lt_trans : (s t u : Text) → text_lt s t ≡ true → text_lt t u ≡ true → text_lt s u ≡ true
unfolding text_lt
lt_trans s [] u h k = cc
lt_trans s (b ∷ t) [] h k = cc
lt_trans [] (b ∷ t) (c ∷ u) h k = refl
lt_trans (a ∷ s) (b ∷ t) (c ∷ u) h k = ground (arith, lt_trans s t u)

pub lt_connex : (s t : Text) → text_lt s t ≡ false → text_lt t s ≡ false → s ≡ t
unfolding text_lt
lt_connex [] [] h k = refl
lt_connex [] (b ∷ t) h k = cc
lt_connex (a ∷ s) [] h k = cc
lt_connex (a ∷ s) (b ∷ t) h k = ground (arith, lt_connex s t)

pub lt_asym : (s t : Text) → text_lt s t ≡ true → text_lt t s ≡ false
lt_asym s t h = elim (Bool-cases (text_lt t s)) [
  | inl k ↦ absurd (let m = lt_trans s t s h k in let n = lt_irrefl s in ground arith)
  | inr k ↦ k
]

pub lt-ne : (s t : Text) → text_lt s t ≡ true → text_eq s t ≡ false
lt-ne s t h = elim (Bool-cases (text_eq s t)) [
  | inl k ↦ absurd (
      let e : s ≡ t = text_eq→eq s t k in
      let m : text_lt s s ≡ true = subst (λ x. text_lt s x ≡ true) (sym e) h in
      let n = lt_irrefl s in ground arith)
  | inr k ↦ k
]

-- Every entry comes after the name.
abbrev pub IsBelow : Text → Dir → Type 0
IsBelow n [] = Unit
IsBelow n (x ∷ d) = (text_lt n x.name ≡ true) × IsBelow n d

abbrev pub IsOrdered : Dir → Type 0
IsOrdered [] = Unit
IsOrdered (x ∷ d) = IsBelow x.name d × IsOrdered d

pub IsBelow-more : (m n : Text) (d : Dir) → text_lt m n ≡ true → IsBelow n d → IsBelow m d
IsBelow-more m n [] h b = tt
IsBelow-more m n (x ∷ d) h (b, c) = (lt_trans m n x.name h b, IsBelow-more m n d h c)

write_entry-IsBelow :
    (n : Text) (e : Entry) (d : Dir)
    → text_lt n e.name ≡ true
    → IsBelow n d
    → IsBelow n (write_entry e d)
unfolding write_entry
write_entry-IsBelow n e [] h b = (h, tt)
write_entry-IsBelow n e (x ∷ d) h (b, c) = elim (Bool-cases (text_lt e.name x.name)) [
  | inl p ↦ rw p (h, (b, c))
  | inr p ↦ rw p (elim (Bool-cases (text_lt x.name e.name)) [
    | inl q ↦ rw q (b, write_entry-IsBelow n e d h c)
    | inr q ↦ rw q (h, c)
  ])
]

pub write_entry-IsOrdered : (e : Entry) (d : Dir) → IsOrdered d → IsOrdered (write_entry e d)
unfolding write_entry
write_entry-IsOrdered e [] o = (tt, tt)
write_entry-IsOrdered e (x ∷ d) (b, o) = elim (Bool-cases (text_lt e.name x.name)) [
  | inl p ↦ rw p ((p, IsBelow-more e.name x.name d p b), (b, o))
  | inr p ↦ rw p (elim (Bool-cases (text_lt x.name e.name)) [
    | inl q ↦ rw q (write_entry-IsBelow x.name e d q b, write_entry-IsOrdered e d o)
    | inr q ↦ rw q (subst (λ n. IsBelow n d) (lt_connex x.name e.name q p) b, o)
  ])
]

drop_entry-IsBelow : (m n : Text) (d : Dir) → IsBelow m d → IsBelow m (drop_entry n d)
unfolding drop_entry
drop_entry-IsBelow m n [] b = tt
drop_entry-IsBelow m n (x ∷ d) (b, c) = elim (Bool-cases (text_eq x.name n)) [
  | inl p ↦ rw p c
  | inr p ↦ rw p (b, drop_entry-IsBelow m n d c)
]

pub drop_entry-IsOrdered : (n : Text) (d : Dir) → IsOrdered d → IsOrdered (drop_entry n d)
unfolding drop_entry
drop_entry-IsOrdered n [] o = tt
drop_entry-IsOrdered n (x ∷ d) (b, o) = elim (Bool-cases (text_eq x.name n)) [
  | inl p ↦ rw p o
  | inr p ↦ rw p (drop_entry-IsBelow x.name n d b, drop_entry-IsOrdered n d o)
]

-- The names alone.
abbrev pub Precedes : Text → List Text → Type 0
Precedes n [] = Unit
Precedes n (m ∷ ms) = (text_lt n m ≡ true) × Precedes n ms

report_names-Precedes : (n : Text) (d : Dir) → IsBelow n d → Precedes n (report_names d)
unfolding report_names
report_names-Precedes n [] b = tt
report_names-Precedes n (x ∷ d) (b, c) = elim (Bool-cases (is_report_name x)) [
  | inl p ↦ rw p (b, report_names-Precedes n d c)
  | inr p ↦ rw p (report_names-Precedes n d c)
]

sorted_in-Precedes : (n : Text) (ms : List Text) → Precedes n ms → sorted_in n ms ≡ n ∷ ms
sorted_in-Precedes n [] h = refl
sorted_in-Precedes n (m ∷ ms) (h, k) = rw (lt_asym n m h) refl

-- Sorting changes nothing.
pub sort_names-report_names : (d : Dir) → IsOrdered d → sort_names (report_names d) ≡ report_names d
unfolding sort_names report_names
sort_names-report_names [] o = refl
sort_names-report_names (x ∷ d) (b, o) = elim (Bool-cases (is_report_name x)) [
  | inl p ↦ rw p (
      ap (sorted_in x.name) (sort_names-report_names d o)
      ∙ sorted_in-Precedes x.name (report_names d) (report_names-Precedes x.name d b))
  | inr p ↦ rw p (sort_names-report_names d o)
]

-- The names with one more, in order and once.
abbrev pub with_name : Text → List Text → List Text
with_name n [] = n ∷ []
with_name n (m ∷ ms) =
    let rest = with_name n ms in
    if text_lt n m then n ∷ m ∷ ms else if text_lt m n then m ∷ rest else n ∷ ms

with_name-Precedes : (n : Text) (ms : List Text) → Precedes n ms → with_name n ms ≡ n ∷ ms
with_name-Precedes n [] h = refl
with_name-Precedes n (m ∷ ms) (h, k) = rw h refl

pub report_names-write_entry :
    (e : Entry) (d : Dir)
    → is_report_name e ≡ true
    → IsOrdered d
    → report_names (write_entry e d) ≡ with_name e.name (report_names d)
unfolding report_names write_entry
report_names-write_entry e [] w o = rw w refl
report_names-write_entry e (x ∷ d) w (b, o) = elim (Bool-cases (text_lt e.name x.name)) [
  | inl p ↦
      rw (p, w)
        (sym (
          with_name-Precedes e.name (report_names (x ∷ d))
            (report_names-Precedes e.name (x ∷ d) (p, IsBelow-more e.name x.name d p b))))
  | inr p ↦ rw p (elim (Bool-cases (text_lt x.name e.name)) [
    | inl q ↦ rw q (elim (Bool-cases (is_report_name x)) [
      | inl r ↦ rw (r, p, q) (ap (λ (l : List Text). x.name ∷ l) (report_names-write_entry e d w o))
      | inr r ↦ rw r (report_names-write_entry e d w o)
    ])
    | inr q ↦
        rw (q, w)
          (let same : x.name ≡ e.name = lt_connex x.name e.name q p in
            let after = report_names-Precedes e.name d (subst (λ n. IsBelow n d) same b) in
            elim (Bool-cases (is_report_name x)) [
              | inl r ↦ rw (r, p, q) refl
              | inr r ↦ rw r (sym (with_name-Precedes e.name (report_names d) after))
            ])
  ])
]

-- No entry of that name is a report.
abbrev pub IsNoReport : Text → Type 0
IsNoReport n = (e : Entry) → e.name ≡ n → is_report_name e ≡ false

pub report_names-write_hidden :
    (e : Entry) (d : Dir) → IsNoReport e.name → report_names (write_entry e d) ≡ report_names d
unfolding report_names write_entry
report_names-write_hidden e [] w = rw (w e refl) refl
report_names-write_hidden e (x ∷ d) w = elim (Bool-cases (text_lt e.name x.name)) [
  | inl p ↦ rw (p, w e refl) refl
  | inr p ↦ rw p (elim (Bool-cases (text_lt x.name e.name)) [
    | inl q ↦ rw q (elim (Bool-cases (is_report_name x)) [
      | inl r ↦ rw r (ap (λ (l : List Text). x.name ∷ l) (report_names-write_hidden e d w))
      | inr r ↦ rw r (report_names-write_hidden e d w)
    ])
    | inr q ↦ rw (q, w e refl, w x (lt_connex x.name e.name q p)) refl
  ])
]

pub report_names-drop_hidden :
    (n : Text) (d : Dir) → IsNoReport n → report_names (drop_entry n d) ≡ report_names d
unfolding report_names drop_entry
report_names-drop_hidden n [] w = refl
report_names-drop_hidden n (x ∷ d) w = elim (Bool-cases (text_eq x.name n)) [
  | inl p ↦ rw (p, w x (text_eq→eq x.name n p)) refl
  | inr p ↦ rw p (elim (Bool-cases (is_report_name x)) [
    | inl r ↦ rw r (ap (λ (l : List Text). x.name ∷ l) (report_names-drop_hidden n d w))
    | inr r ↦ rw r (report_names-drop_hidden n d w)
  ])
]

IsBelow-first :
    (m n : Text) (ns : List Text) (d : Dir)
    → IsBelow m d
    → report_names d ≡ n ∷ ns
    → text_lt m n ≡ true
IsBelow-first m n ns d b e =
    let p : Precedes m (n ∷ ns) = subst (Precedes m) e (report_names-Precedes m d b) in p.0

names_of_report :
    (x : Entry) (d : Dir) → is_report_name x ≡ true → report_names (x ∷ d) ≡ x.name ∷ report_names d
unfolding report_names
names_of_report x d r = rw r refl

names_of_other :
    (x : Entry) (d : Dir) → is_report_name x ≡ false → report_names (x ∷ d) ≡ report_names d
unfolding report_names
names_of_other x d r = rw r refl

heads : (m n : Text) (ms ns : List Text) → m ∷ ms ≡ n ∷ ns → (m ≡ n) × (ms ≡ ns)
heads m n ms ns e = (cc, cc)

-- Dropping the first of the names.
pub report_names-drop_first :
    (n : Text) (ns : List Text) (d : Dir)
    → IsOrdered d
    → report_names d ≡ n ∷ ns
    → report_names (drop_entry n d) ≡ ns
unfolding drop_entry
report_names-drop_first n ns [] o e = unfold report_names in cc
report_names-drop_first n ns (x ∷ d) (b, o) e = elim (Bool-cases (is_report_name x)) [
  | inl r ↦
      let (same, rest) = heads x.name n (report_names d) ns (sym (names_of_report x d r) ∙ e) in
      rw (← same) (rw (text_eq_refl x.name) rest)
  | inr r ↦
      let f : report_names d ≡ n ∷ ns = sym (names_of_other x d r) ∙ e in
      rw (lt-ne x.name n (IsBelow-first x.name n ns d b f))
        (names_of_other x (drop_entry n d) r ∙ report_names-drop_first n ns d o f)
]
