-- ===== src/SelfUpdate/Refused/Bounds.antt =====
-- foundation/selfupdate/probation.go: what refuse leaves in the list.
use sion_backup.Prelude.{
  ℕ, zero, suc, true, List, [], ◌∷◌, ◌++◌, All, ◌≡◌, ◌≤◌, ◌-◌, refl, arith, inl, inr, Bool-cases,
  if◌then◌else◌, length, drop, length-append, length-drop, ltb, All-append, ltb→lt,
}
use sion_backup.Prelude.Text.{Text, text_eq_refl, lines, join}
use sion_backup.SelfUpdate.Disk.{Disk, Faults, done}
use sion_backup.SelfUpdate.Refused.{
  keep_texts, refused_lines, member, refuses, capped, refuse, max_refused,
}
use sion_backup.SelfUpdate.Refused.Parsing.{IsClean, keep-join}
use sion_backup.SelfUpdate.Refused.Cleaning.{refused_lines-IsClean}

member-append_self : (v : Text) (rs : List Text) → member v (rs ++ v ∷ []) ≡ true
unfolding member
member-append_self v [] = rw (text_eq_refl v) refl
member-append_self v (r ∷ rs) = ground (arith, member-append_self v rs)

drop-append :
    (n : ℕ) (rs : List Text) (v : Text)
    → n ≤ length rs
    → drop n (rs ++ v ∷ []) ≡ drop n rs ++ v ∷ []
drop-append zero rs v h = refl
drop-append (suc n) [] v h = absurd (omega arith)
drop-append (suc n) (r ∷ rs) v h = drop-append n rs v (omega arith)

-- The list that refuse writes keeps the version it adds at its end.
capped-append :
    (rs : List Text) (v : Text) → (ks : List Text) × (capped (rs ++ v ∷ []) ≡ ks ++ v ∷ [])
unfolding capped
capped-append rs v = elim (Bool-cases (ltb max_refused (length (rs ++ v ∷ [])))) [
  | inl e ↦ (
    drop (length (rs ++ v ∷ []) - max_refused) rs,
    rw e (
        drop-append (length (rs ++ v ∷ []) - max_refused) rs v
          (omega (arith, length-append rs (v ∷ [])))),
  )
  | inr e ↦ (rs, rw e refl)
]

length-capped : (rs : List Text) → length (capped rs) ≤ max_refused
unfolding capped
length-capped rs = elim (Bool-cases (ltb max_refused (length rs))) [
  | inl e ↦
      rw e
        (omega (arith, length-drop (length rs - max_refused) rs, ltb→lt max_refused (length rs) e))
  | inr e ↦ rw e (ground arith)
]

All-drop : (n : ℕ) (rs : List Text) → All IsClean rs → All IsClean (drop n rs)
All-drop zero rs h = h
All-drop (suc n) [] h = h
All-drop (suc n) (r ∷ rs) h = All-drop n rs h.1

capped-IsClean : (rs : List Text) → All IsClean rs → All IsClean (capped rs)
unfolding capped
capped-IsClean rs h = elim (Bool-cases (ltb max_refused (length rs))) [
  | inl e ↦ rw e (All-drop (length rs - max_refused) rs h)
  | inr e ↦ rw e h
]

keep-join_any :
    (ks : List Text) (v : Text)
    → All IsClean (ks ++ v ∷ [])
    → keep_texts (lines (join 10 (ks ++ v ∷ []) ++ 10 ∷ [])) ≡ ks ++ v ∷ []
keep-join_any [] v h = keep-join v [] h
keep-join_any (k ∷ ks) v h = keep-join k (ks ++ v ∷ []) h

keep-join-capped :
    (rs : List Text) (v : Text)
    → All IsClean rs
    → IsClean v
    → keep_texts (lines (join 10 (capped (rs ++ v ∷ [])) ++ 10 ∷ [])) ≡ capped (rs ++ v ∷ [])
keep-join-capped rs v hr hv =
    let (ks, e) = capped-append rs v in
    let all : All IsClean (capped (rs ++ v ∷ [])) =
      capped-IsClean (rs ++ v ∷ []) (All-append IsClean rs (v ∷ []) hr (hv, tt)) in
    rw e (keep-join_any ks v (rw e at all))

-- Once refuse's write of a version is done, the list read back is the one that was there if the
-- version was listed already, and otherwise that list with the version at its end, cut down to
-- the newest ten, whatever text the file held before. The version is not empty, has no line
-- break, and no white space at its ends.
pub refused-refuse :
    (f : Faults) (v : Text) (d : Disk)
    → IsClean v
    → f.write_refused ≡ done
    → refused_lines (refuse f v d).refused_file ≡ (
        if member v (refused_lines d.refused_file)
        then refused_lines d.refused_file
        else capped (refused_lines d.refused_file ++ v ∷ []))
unfolding refuse
refused-refuse f v d hv hw = elim (Bool-cases (member v (refused_lines d.refused_file))) [
  | inl e ↦ rw e refl
  | inr e ↦
      rw (e, hw)
        (unfold refused_lines in
          keep-join-capped (refused_lines d.refused_file) v (refused_lines-IsClean d.refused_file)
            hv)
]

member-capped : (rs : List Text) (v : Text) → member v (capped (rs ++ v ∷ [])) ≡ true
member-capped rs v = let (ks, e) = capped-append rs v in rw e (member-append_self v ks)

-- After refuse's write is done the version is refused, and the list has at most ten entries, as
-- it had before. The version is not empty, has no line break, and no white space at its ends.
pub refuse-refuses :
    (f : Faults) (v : Text) (d : Disk)
    → IsClean v
    → f.write_refused ≡ done
    → length (refused_lines d.refused_file) ≤ max_refused
    → (refuses (refuse f v d) v ≡ true)
      × (length (refused_lines (refuse f v d).refused_file) ≤ max_refused)
unfolding refuses
refuse-refuses f v d hv hw hl = elim (Bool-cases (member v (refused_lines d.refused_file))) [
  | inl e ↦ rw (refused-refuse f v d hv hw) (rw e (e, hl))
  | inr e ↦ rw (refused-refuse f v d hv hw) (
      rw e (
        member-capped (refused_lines d.refused_file) v,
        length-capped (refused_lines d.refused_file ++ v ∷ []),
      ))
]
