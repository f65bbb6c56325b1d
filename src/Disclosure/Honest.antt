-- ===== src/Disclosure/Honest.antt =====
-- business/domain/disclosure/disclosurebus: a server that only appends raises no alarm, however
-- often the log is read and wherever the list is capped.
use sion_backup.Prelude.{
  ℕ, zero, suc, ◌<◌, ◌≤◌, ◌≡◌, ◌⊎◌, inl, inr, refl, ◌∙◌, arith, true, false, Option, none, some,
  List, [], ◌∷◌, ◌++◌, take, length, length-append, All, Bool-cases, ◌==◌, ltb,
}
use sion_backup.Prelude.Text.{Text, text_eq, text_eq_iff, text_eq_refl}
use sion_backup.Prelude.Result.{Result, ok, err}
use sion_backup.Prelude.Time.{Time}
use sion_backup.Disclosure.{
  Entry, Witness, Keep, Log, Verdict, wrong, entry_at, unlinked, is_broken, check, check_kept,
  check_found, untested_verdict, witness_of, is_zero_witness, Report, report, or_first,
}
use sion_backup.Disclosure.Store.{remember, row}
use sion_backup.Disclosure.Reading.{read, Faults, ReadError}

-- The chain of the server, newest first: each entry names its place and the hash before it.
abbrev pub Follows : Entry → List Entry → Type 0
Follows e [] = Unit
Follows e (b ∷ es) = e.prev_hash ≡ b.hash

abbrev pub IsChain : List Entry → Type 0
IsChain [] = Unit
IsChain (e ∷ es) = (e.seq ≡ suc (length es)) × Follows e es × IsChain es

abbrev pub head_of : List Entry → Text
head_of [] = []
head_of (e ∷ es) = e.hash

-- What an honest server answers: the newest `n` entries.
abbrev pub reading : List Entry → ℕ → Log
reading c n = record { count = length c; head = head_of c; entries = take n c; chained_since = 0 }

-- The head that was kept is the hash at its place of the chain.
abbrev pub Vouches : List Entry → Keep → Type 0
Vouches c k =
    (is_zero_witness k.witness ≡ true)
    ⊎ ((e : Entry) × (entry_at c k.witness.count ≡ some e)
        × (e.hash ≡ k.witness.hash)
        × (k.witness.count ≤ length c))

entry_at-take :
    (c : List Entry) (n m : ℕ)
    → (entry_at (take n c) m ≡ none) ⊎ (entry_at (take n c) m ≡ entry_at c m)
unfolding entry_at
entry_at-take c zero m = inl refl
entry_at-take [] (suc n) m = inl refl
entry_at-take (e ∷ es) (suc n) m = elim (Bool-cases (e.seq == m)) [
  | inl t ↦ inr (rw t refl)
  | inr t ↦ rw t (entry_at-take es n m)
]

unlinked-take : (c : List Entry) (n : ℕ) → IsChain c → unlinked (take n c) ≡ false
unfolding unlinked
unlinked-take c zero k = refl
unlinked-take [] (suc n) k = refl
unlinked-take (a ∷ []) (suc zero) k = refl
unlinked-take (a ∷ []) (suc (suc n)) k = refl
unlinked-take (a ∷ b ∷ es) (suc zero) k = refl
unlinked-take (a ∷ b ∷ es) (suc (suc n)) (s, p, k) =
    ground (arith, text_eq_iff a.prev_hash b.hash, unlinked-take (b ∷ es) (suc n) k)

is_broken-reading :
    (c : List Entry) (n : ℕ)
    → IsChain c
    → 0 < n
    → is_broken (length c) (head_of c) (take n c) ≡ false
is_broken-reading [] (suc n) k h = refl
is_broken-reading (e ∷ es) (suc n) k h =
    ground (arith, text_eq_refl e.hash, unlinked-take (e ∷ es) (suc n) k)
is_broken-reading c zero k h = absurd (omega (arith, h))

check_found-honest :
    (o : Option Entry) (k : Keep) (e : Entry) (rest : Option Keep → Verdict × Keep)
    (t : Option Keep)
    → (o ≡ none) ⊎ (o ≡ some e)
    → e.hash ≡ k.witness.hash
    → ((t : Option Keep) → wrong (rest t).0 ≡ false)
    → wrong (check_found o k rest t).0 ≡ false
check_found-honest none k e rest t c h r = r t
check_found-honest (some x) k e rest t (inl c) h r = cc
check_found-honest (some x) k e rest t (inr c) h r = rw (found-same x k e c h) (r (or_first t k))
  where
    found-same :
        (x : Entry) (k : Keep) (e : Entry)
        → some x ≡ some e
        → e.hash ≡ k.witness.hash
        → text_eq x.hash k.witness.hash ≡ true
    found-same x k e c h = ground (arith, text_eq_iff x.hash k.witness.hash)

check_kept-honest :
    (c : List Entry) (n : ℕ) (u : Verdict) (ks : List Keep) (t : Option Keep)
    → wrong u ≡ false
    → All (Vouches c) ks
    → wrong (check_kept (reading c n) u ks t).0 ≡ false
unfolding check_kept wrong
check_kept-honest c n u [] none w a = w
check_kept-honest c n u [] (some k) w a = refl
check_kept-honest c n u (k ∷ ks) t w (inl z, a) = rw z (check_kept-honest c n u ks t w a)
check_kept-honest c n u (k ∷ ks) t w (inr (e, f, h, l), a) =
    let ih = λ (x : Option Keep). check_kept-honest c n u ks x w a in
    let tested =
      check_found-honest (entry_at (take n c) k.witness.count) k e (check_kept (reading c n) u ks) t
        (elim (entry_at-take c n k.witness.count) [ inl i ↦ inl i | inr i ↦ inr (i ∙ f) ]) h ih in
    ground (arith, tested, ih t)

entry_at-append :
    (new c : List Entry) (m : ℕ)
    → IsChain (new ++ c)
    → m ≤ length c
    → entry_at (new ++ c) m ≡ entry_at c m
unfolding entry_at
entry_at-append [] c m k l = refl
entry_at-append (e ∷ es) c m (s, p, k) l =
    ground (arith, length-append es c, entry_at-append es c m k l)

Vouches-append :
    (new c : List Entry) (x : Keep) → IsChain (new ++ c) → Vouches c x → Vouches (new ++ c) x
Vouches-append new c x k (inl z) = inl z
Vouches-append new c x k (inr (e, f, h, l)) =
    inr (
      e,
      rw (entry_at-append new c x.witness.count k l) f,
      h,
      omega (arith, length-append new c, l),
    )

Vouches-row :
    (c : List Entry) (n : ℕ) (now : Time)
    → IsChain c
    → Vouches c (row (witness_of (reading c n)) now)
unfolding witness_of is_zero_witness entry_at
Vouches-row [] n now k = inl refl
Vouches-row (e ∷ es) n now k = inr (e, ground arith, refl, omega arith)

All-remember :
    (P : Keep → Type 0) (w : Witness) (now : Time) (ks : List Keep)
    → P (row w now)
    → All P ks
    → All P (remember w now ks)
unfolding remember
All-remember P w now [] p a = (p, tt)
All-remember P w now (k ∷ ks) p (q, a) = elim (Bool-cases (w.count == k.witness.count)) [
  | inl e ↦ rw e (q, a)
  | inr e ↦ rw e (elim (Bool-cases (ltb w.count k.witness.count)) [
    | inl l ↦ rw l (p, (q, a))
    | inr l ↦ rw l (q, All-remember P w now ks p a)
  ])
]

-- One visit of the page: what the server has added since, how much of the log is asked for, when.
pub record Visit : Type 0 where
  pub added : List Entry
  pub limit : ℕ
  pub now : Time

abbrev pub all_work : Faults
all_work = record { kept = false; remember = false }

-- Read at one visit: the heads kept afterwards, and the verdict.
abbrev pub visit_read : List Entry → Visit → List Keep → List Keep × Result ReadError Report
visit_read c v rows = read true all_work v.now (some (reading (v.added ++ c) v.limit)) rows

-- The results of the visits one after the other.
unfoldable pub visit_all : List Entry → List Visit → List Keep → List (Result ReadError Report)
visit_all c [] rows = []
visit_all c (v ∷ vs) rows =
    let (rows', r) = visit_read c v rows in r ∷ visit_all (v.added ++ c) vs rows'

-- Every chain on the way is one, and at least one entry is asked for.
abbrev pub AllHonest : List Entry → List Visit → Type 0
AllHonest c [] = Unit
AllHonest c (v ∷ vs) = IsChain (v.added ++ c) × (0 < v.limit) × AllHonest (v.added ++ c) vs

abbrev pub IsQuiet : Result ReadError Report → Type 0
IsQuiet (ok r) = wrong r.verdict ≡ false
IsQuiet (err e) = ⊥

untested-quiet : (rows : List Keep) → wrong (untested_verdict rows) ≡ false
unfolding wrong
untested-quiet [] = refl
untested-quiet (_ ∷ _) = refl

check-honest :
    (c : List Entry) (n : ℕ) (rows : List Keep)
    → IsChain c
    → 0 < n
    → All (Vouches c) rows
    → wrong (check (reading c n) rows).0 ≡ false
unfolding check
check-honest c n rows k h a =
    rw (is_broken-reading c n k h)
      (check_kept-honest c n (untested_verdict rows) rows none (untested-quiet rows) a)

All-Vouches-append :
    (new c : List Entry) (ks : List Keep)
    → IsChain (new ++ c)
    → All (Vouches c) ks
    → All (Vouches (new ++ c)) ks
All-Vouches-append new c [] k a = tt
All-Vouches-append new c (x ∷ ks) k (v, a) =
    (Vouches-append new c x k v, All-Vouches-append new c ks k a)

visit_all-IsQuiet :
    (c : List Entry) (vs : List Visit) (rows : List Keep)
    → AllHonest c vs
    → All (Vouches c) rows
    → All IsQuiet (visit_all c vs rows)
unfolding visit_all read report
visit_all-IsQuiet c [] rows h a = tt
visit_all-IsQuiet c (v ∷ vs) rows (k, l, h) a =
    let kept = All-Vouches-append v.added c rows k a in
    (
      check-honest (v.added ++ c) v.limit rows k l kept,
      visit_all-IsQuiet (v.added ++ c) vs
          (remember (witness_of (reading (v.added ++ c) v.limit)) v.now rows) h
          (All-remember (Vouches (v.added ++ c)) (witness_of (reading (v.added ++ c) v.limit)) v.now
            rows (Vouches-row (v.added ++ c) v.limit v.now k) kept),
    )

-- No false alarm: a machine that begins with no heads kept, and reads the log of a server that only
-- appends to a linked chain, as often as it likes and however much of the log it asks for, so long as
-- it asks for one entry and its store works, is never told that the log is broken, shrunk or rewritten.
pub honest_visits-IsQuiet : (vs : List Visit) → AllHonest [] vs → All IsQuiet (visit_all [] vs [])
honest_visits-IsQuiet vs h = visit_all-IsQuiet [] vs [] h tt
