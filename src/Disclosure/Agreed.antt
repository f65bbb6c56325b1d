-- ===== src/Disclosure/Agreed.antt =====
-- business/domain/disclosure/disclosurebus: what the verdict "agrees" proves, given a hash of the
-- server that no two entries share.
use sion_backup.Prelude.{
  ℕ, suc, ◌≡◌, ◌≢◌, inl, inr, refl, ap, sym, subst, ◌∙◌, arith, true, false, Option, none, some,
  List, [], ◌∷◌, Bool-cases, ◌==◌, ltb, if◌then◌else◌, All,
}
use sion_backup.Prelude.Text.{Text, text_eq, text_eq_iff}
use sion_backup.Disclosure.{
  Entry, Keep, Log, Verdict, agrees, entry_at, is_broken, unlinked, check, check_kept, check_found,
  untested_verdict, is_zero_witness, or_first,
}

-- The kept head is where the log says it is.
abbrev pub Found : Log → Keep → Type 0
Found l k = (e : Entry) × (entry_at l.entries k.witness.count ≡ some e) × (e.hash ≡ k.witness.hash)

abbrev pub AllFound : Log → Option Keep → Type 0
AllFound l none = Unit
AllFound l (some k) = Found l k

check_found-agrees :
    (l : Log) (o : Option Entry) (k a : Keep) (rest : Option Keep → Verdict × Keep)
    (t : Option Keep)
    → entry_at l.entries k.witness.count ≡ o
    → AllFound l t
    → ((x : Option Keep) → AllFound l x → rest x ≡ (agrees, a) → Found l a)
    → check_found o k rest t ≡ (agrees, a)
    → Found l a
check_found-agrees l none k a rest t h f r c = r t f c
check_found-agrees l (some e) k a rest t h f r c =
    elim (Bool-cases (text_eq e.hash k.witness.hash)) [
      | inl s ↦ r (or_first t k) (or-Found l t k e h s f) (ground arith)
      | inr s ↦ absurd (ground arith)
    ]
  where
    or-Found :
        (l : Log) (t : Option Keep) (k : Keep) (e : Entry)
        → entry_at l.entries k.witness.count ≡ some e
        → text_eq e.hash k.witness.hash ≡ true
        → AllFound l t
        → AllFound l (or_first t k)
    or-Found l none k e h s f = (e, h, (text_eq_iff e.hash k.witness.hash).0 s)
    or-Found l (some x) k e h s f = f

check_kept-agrees :
    (l : Log) (u : Verdict) (ks : List Keep) (t : Option Keep) (a : Keep)
    → u ≢ agrees
    → AllFound l t
    → check_kept l u ks t ≡ (agrees, a)
    → Found l a
unfolding check_kept
check_kept-agrees l u [] none a n f c = absurd (n (ap (λ p. p.0) c))
check_kept-agrees l u [] (some k) a n f c = subst (Found l) (ap (λ p. p.1) c) f
check_kept-agrees l u (k ∷ ks) t a n f c = elim (Bool-cases (is_zero_witness k.witness)) [
  | inl z ↦ check_kept-agrees l u ks t a n f (ground arith)
  | inr z ↦ elim (Bool-cases (ltb l.count k.witness.count)) [
    | inl s ↦ absurd (ground arith)
    | inr s ↦
        check_found-agrees l (entry_at l.entries k.witness.count) k a (check_kept l u ks) t refl f
          (λ x g d. check_kept-agrees l u ks x a n g d) (ground arith)
  ]
]

-- What the hash of an entry covers: the entry and the hash before it.
abbrev pub content : Entry → Entry
content e = record e { prev_hash = []; hash = [] }

abbrev pub Covers : Entry → Entry → Type 0
Covers x y = x.hash ≡ y.hash → (x.prev_hash ≡ y.prev_hash) × (content x ≡ content y)

-- No two entries of the lists have one hash for different things.
abbrev pub NoCollision : List Entry → List Entry → Type 0
NoCollision xs ys = All (λ x. All (Covers x) ys) xs

NoCollision-tails :
    (x : Entry) (xs : List Entry) (y : Entry) (ys : List Entry)
    → NoCollision (x ∷ xs) (y ∷ ys)
    → NoCollision xs ys
NoCollision-tails x [] y ys c = tt
NoCollision-tails x (a ∷ xs) y ys (c, (d, e)) = (d.1, NoCollision-tails x xs y ys (c, e))

-- Each entry's place is the one before the next.
abbrev pub Contiguous : List Entry → Type 0
Contiguous [] = Unit
Contiguous (a ∷ []) = Unit
Contiguous (a ∷ b ∷ es) = (a.seq ≡ suc b.seq) × Contiguous (b ∷ es)

abbrev pub Links : List Entry → Type 0
Links [] = Unit
Links (a ∷ []) = Unit
Links (a ∷ b ∷ es) = (a.prev_hash ≡ b.hash) × Links (b ∷ es)

-- The entries are the same as far as both lists reach.
abbrev pub SameAsFar : List Entry → List Entry → Type 0
SameAsFar [] ys = Unit
SameAsFar (x ∷ xs) [] = Unit
SameAsFar (x ∷ xs) (y ∷ ys) = (x ≡ y) × SameAsFar xs ys

-- The entries from the one with this sequence number on.
abbrev pub from_seq : List Entry → ℕ → List Entry
from_seq [] seq = []
from_seq (e ∷ es) seq = let rest = from_seq es seq in if e.seq == seq then e ∷ es else rest

unlinked-Links : (es : List Entry) → Contiguous es → unlinked es ≡ false → Links es
unfolding unlinked
unlinked-Links [] c u = tt
unlinked-Links (a ∷ []) c u = tt
unlinked-Links (a ∷ b ∷ es) (s, c) u =
    ground (arith, text_eq_iff a.prev_hash b.hash, unlinked-Links (b ∷ es) c)

Links-tail : (x : Entry) (xs : List Entry) → Links (x ∷ xs) → Links xs
Links-tail x [] l = tt
Links-tail x (a ∷ xs) l = l.1

Contiguous-Links :
    (count : ℕ) (head : Text) (es : List Entry)
    → is_broken count head es ≡ false
    → Contiguous es
    → Links es
Contiguous-Links count head [] b k = tt
Contiguous-Links count head (e ∷ es) b k = unlinked-Links (e ∷ es) k (ground arith)

newest_hash :
    (count : ℕ) (head : Text) (y : Entry) (ys : List Entry)
    → is_broken count head (y ∷ ys) ≡ false
    → y.seq ≡ count
    → y.hash ≡ head
newest_hash count head y ys b s = ground (arith, text_eq_iff y.hash head)

check-agrees :
    (l : Log) (kept : List Keep) (a : Keep)
    → check l kept ≡ (agrees, a)
    → (is_broken l.count l.head l.entries ≡ false) × Found l a
unfolding check
check-agrees l kept a c = elim (Bool-cases (is_broken l.count l.head l.entries)) [
  | inl b ↦ absurd (ground arith)
  | inr b ↦ (
    b,
    check_kept-agrees l (untested_verdict kept) kept none a (untested_differs kept) tt
        (ground arith),
  )
]
  where
    untested_differs : (ks : List Keep) → untested_verdict ks ≢ agrees
    untested_differs [] = λ e. cc
    untested_differs (_ ∷ _) = λ e. cc

abbrev rebuilt : Entry → Text → Text → Entry
rebuilt c p h = record c { prev_hash = p; hash = h }

same_entry : (x y : Entry) → Covers x y → x.hash ≡ y.hash → (x ≡ y) × (x.prev_hash ≡ y.prev_hash)
same_entry x y f e =
    let (p, c) = f e in
    (
      ap (λ k. rebuilt k x.prev_hash x.hash) c
          ∙ ap (λ k. rebuilt (content y) k x.hash) p
          ∙ ap (λ k. rebuilt (content y) y.prev_hash k) e,
      p,
    )

same_from :
    (x y : Entry) (xs ys : List Entry)
    → Links (x ∷ xs)
    → Links (y ∷ ys)
    → NoCollision (x ∷ xs) (y ∷ ys)
    → x.hash ≡ y.hash
    → SameAsFar (x ∷ xs) (y ∷ ys)
same_from x y [] ys l m g e = ((same_entry x y g.0.0 e).0, tt)
same_from x y (a ∷ xs) [] l m g e = ((same_entry x y g.0.0 e).0, tt)
same_from x y (a ∷ xs) (b ∷ ys) (l, ls) (m, ms) g e =
    let (q, p) = same_entry x y g.0.0 e in
    (q, same_from a b xs ys ls ms (NoCollision-tails x (a ∷ xs) y (b ∷ ys) g) (sym l ∙ p ∙ m))

-- From the place of a head on, a linked log whose entry there has the head's hash repeats the log
-- that ended with that head.
same_since :
    (es : List Entry) (n : ℕ) (e y : Entry) (ys : List Entry)
    → Links es
    → Links (y ∷ ys)
    → NoCollision es (y ∷ ys)
    → entry_at es n ≡ some e
    → e.hash ≡ y.hash
    → SameAsFar (from_seq es n) (y ∷ ys)
unfolding entry_at
same_since [] n e y ys l m g f s = tt
same_since (x ∷ xs) n e y ys l m g f s = elim (Bool-cases (x.seq == n)) [
  | inl t ↦ rw t (same_from x y xs ys l m g (ground arith))
  | inr t ↦ rw t (same_since xs n e y ys (Links-tail x xs l) m g.1 (ground arith) s)
]

-- If a log agrees with the head that a machine kept of an earlier log, then from the place of that
-- head on it has the entries of the earlier log, unchanged, none added or left out, as far back as
-- both were returned. Both logs return consecutive entries, the earlier one was linked and returned its
-- newest entry, and no two of these entries have one hash for different contents.
pub agreement_proves :
    (l old : Log) (kept : List Keep) (a : Keep) (y : Entry) (ys : List Entry)
    → check l kept ≡ (agrees, a)
    → Contiguous l.entries
    → old.entries ≡ y ∷ ys
    → Contiguous (y ∷ ys)
    → NoCollision l.entries (y ∷ ys)
    → is_broken old.count old.head (y ∷ ys) ≡ false
    → y.seq ≡ old.count
    → old.head ≡ a.witness.hash
    → SameAsFar (from_seq l.entries a.witness.count) old.entries
agreement_proves l old kept a y ys c k e m g d s n =
    let (b, (x, f, q)) = check-agrees l kept a c in
    subst (λ zs. SameAsFar (from_seq l.entries a.witness.count) zs) (sym e)
      (same_since l.entries a.witness.count x y ys (Contiguous-Links l.count l.head l.entries b k)
        (Contiguous-Links old.count old.head (y ∷ ys) d m) g f
        (q ∙ sym n ∙ sym (newest_hash old.count old.head y ys d s)))
