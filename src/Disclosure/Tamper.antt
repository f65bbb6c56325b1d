-- ===== src/Disclosure/Tamper.antt =====
-- business/domain/disclosure/disclosurebus: a log that contradicts a kept head is never passed.
use sion_backup.Prelude.{
  ◌<◌, ◌≡◌, ◌≢◌, ◌⊎◌, inl, inr, refl, arith, true, false, Option, none, some, List, [], ◌∷◌, Any,
  Bool-cases,
}
use sion_backup.Prelude.Text.{text_eq_iff}
use sion_backup.Disclosure.{
  Entry, Keep, Log, Verdict, wrong, entry_at, is_broken, check, check_kept, check_found,
  untested_verdict, is_zero_witness, or_first,
}

-- The log is shorter than when the head was kept, or has another hash at the head's place.
abbrev pub Contradicts : Log → Keep → Type 0
Contradicts l k =
    (is_zero_witness k.witness ≡ false)
    × ((l.count < k.witness.count)
        ⊎ ((e : Entry) × (entry_at l.entries k.witness.count ≡ some e) × (e.hash ≢ k.witness.hash)))

check_found-wrong :
    (o : Option Entry) (k : Keep) (rest : Option Keep → Verdict × Keep) (t : Option Keep)
    → ((x : Option Keep) → wrong (rest x).0 ≡ true)
    → wrong (check_found o k rest t).0 ≡ true
unfolding wrong
check_found-wrong none k rest t h = h t
check_found-wrong (some e) k rest t h = ground (arith, h (or_first t k))

check_found-rewritten :
    (o : Option Entry) (e : Entry) (k : Keep) (rest : Option Keep → Verdict × Keep)
    (t : Option Keep)
    → o ≡ some e
    → e.hash ≢ k.witness.hash
    → wrong (check_found o k rest t).0 ≡ true
unfolding wrong
check_found-rewritten none e k rest t h d = cc
check_found-rewritten (some x) e k rest t h d = ground (arith, text_eq_iff x.hash k.witness.hash)

check_kept-wrong :
    (l : Log) (u : Verdict) (ks : List Keep) (t : Option Keep)
    → Any (Contradicts l) ks
    → wrong (check_kept l u ks t).0 ≡ true
unfolding check_kept wrong
check_kept-wrong l u [] t a = absurd a
check_kept-wrong l u (k ∷ ks) t (inl (z, inl s)) = ground arith
check_kept-wrong l u (k ∷ ks) t (inl (z, inr (e, f, d))) =
    let found =
      check_found-rewritten (entry_at l.entries k.witness.count) e k (check_kept l u ks) t f d in
    ground (arith, found)
check_kept-wrong l u (k ∷ ks) t (inr a) =
    let ih = λ (x : Option Keep). check_kept-wrong l u ks x a in
    let found = check_found-wrong (entry_at l.entries k.witness.count) k (check_kept l u ks) t ih in
    ground (arith, found, ih t)

-- Whatever the server answers: a log that is shorter than some kept head says it was, or has another
-- hash at such a head's place, is reported as broken, shrunk or rewritten.
pub tampering_shows :
    (l : Log) (kept : List Keep) → Any (Contradicts l) kept → wrong (check l kept).0 ≡ true
unfolding check wrong
tampering_shows l kept a = elim (Bool-cases (is_broken l.count l.head l.entries)) [
  | inl b ↦ rw b refl
  | inr b ↦ rw b (check_kept-wrong l (untested_verdict kept) kept none a)
]
