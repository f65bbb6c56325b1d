-- ===== src/Disclosure/Heads.antt =====
-- business/domain/disclosure/stores/disclosuredb: the table as what it stands for, a map from counts to
-- the heads that were seen first.
use sion_backup.Prelude.{
  ℕ, suc, ◌<◌, ◌≤◌, Option, none, some, List, [], ◌∷◌, ◌==◌, ltb, ◌≡◌, inl, inr, refl, ap, ◌∙◌,
  arith, Bool-cases, if◌then◌else◌,
}
use mathlib.Core.Path.{fun_ext}
use sion_backup.Prelude.Time.{Time}
use sion_backup.Disclosure.{Witness, Keep}
use sion_backup.Disclosure.Store.{remember, row}

-- The head with a count.
unfoldable pub heads : List Keep → ℕ → Option Keep
heads [] n = none
heads (k ∷ ks) n = let rest = heads ks n in if k.witness.count == n then some k else rest

abbrev pub or_new : Option Keep → Keep → Option Keep
or_new (some k) new = some k
or_new none new = some new

-- What Remember promises: a count that was seen keeps its head and the time of its first sight.
abbrev pub keep_first : Witness → Time → (ℕ → Option Keep) → ℕ → Option Keep
keep_first w seen m n = if w.count == n then or_new (m n) (row w seen) else m n

-- The counts ascend from `lo` on.
abbrev pub From : ℕ → List Keep → Type 0
From lo [] = Unit
From lo (k ∷ ks) = (lo ≤ k.witness.count) × From (suc k.witness.count) ks

heads-below : (lo n : ℕ) (ks : List Keep) → From lo ks → n < lo → heads ks n ≡ none
unfolding heads
heads-below lo n [] f l = refl
heads-below lo n (k ∷ ks) f l = ground (arith, heads-below (suc k.witness.count) n ks f.1)

remember-heads :
    (w : Witness) (seen : Time) (n lo : ℕ) (ks : List Keep)
    → From lo ks
    → heads (remember w seen ks) n ≡ keep_first w seen (heads ks) n
unfolding heads remember
remember-heads w seen n lo [] f = refl
remember-heads w seen n lo (k ∷ ks) f = elim (Bool-cases (w.count == k.witness.count)) [
  | inl e ↦ ground arith
  | inr e ↦ elim (Bool-cases (ltb w.count k.witness.count)) [
    | inl l ↦ ground (arith, heads-below (suc k.witness.count) n ks f.1)
    | inr l ↦ ground (arith, remember-heads w seen n (suc k.witness.count) ks f.1)
  ]
]

remember-From :
    (w : Witness) (seen : Time) (lo : ℕ) (ks : List Keep)
    → lo ≤ w.count
    → From lo ks
    → From lo (remember w seen ks)
unfolding remember
remember-From w seen lo [] h f = (h, tt)
remember-From w seen lo (k ∷ ks) h f = elim (Bool-cases (w.count == k.witness.count)) [
  | inl e ↦ rw e f
  | inr e ↦ elim (Bool-cases (ltb w.count k.witness.count)) [
    | inl l ↦ rw (e, l) (h, (ground arith, f.1))
    | inr l ↦ rw (e, l) (f.0, remember-From w seen (suc k.witness.count) ks (ground arith) f.1)
  ]
]

-- Heads that are seen one after the other.
unfoldable pub remember_all : List (Witness × Time) → List Keep → List Keep
remember_all [] rows = rows
remember_all ((w, seen) ∷ ws) rows = remember_all ws (remember w seen rows)

unfoldable pub keep_first_all : List (Witness × Time) → (ℕ → Option Keep) → ℕ → Option Keep
keep_first_all [] m = m
keep_first_all ((w, seen) ∷ ws) m = keep_first_all ws (keep_first w seen m)

-- The table implements the map that keeps the first head of each count: with rows in ascending order of
-- their counts, whatever heads are remembered one after the other, the rows are again in that order, and
-- they stand for the map that arises from theirs by keeping those heads whose count is new.
pub remember_refines :
    (ws : List (Witness × Time)) (rows : List Keep)
    → From 0 rows
    → From 0 (remember_all ws rows)
      × (heads (remember_all ws rows) ≡ keep_first_all ws (heads rows))
unfolding remember_all keep_first_all
remember_refines [] rows f = (f, refl)
remember_refines ((w, seen) ∷ ws) rows f =
    let (g, e) =
      remember_refines ws (remember w seen rows) (remember-From w seen 0 rows (omega arith) f) in
    (g, e ∙ ap (keep_first_all ws) (fun_ext (λ n. remember-heads w seen n 0 rows f)))
