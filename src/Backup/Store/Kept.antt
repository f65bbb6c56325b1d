-- ===== src/Backup/Store/Kept.antt =====
-- business/domain/backup/stores/backupdb/backupdb.go: the ids of the rows, and which runs are told.
use sion_backup.Prelude.{
  ℕ, suc, Bool, true, false, List, [], ◌∷◌, take, ℤ, pos, ◌==◌, ◌<◌, ◌≤◌, ◌≡◌, ap, ◌≢◌, inl, inr,
  refl, arith, Bool-cases, All, All-append, leb_ℤ, zero, ◌&&◌,
}
use mathlib.Core.List.{reverse, reverse-cons}
use sion_backup.Prelude.Time.{Time}
use sion_backup.Backup.Run.{Run}
use sion_backup.Backup.Store.{
  Row, History, create, finish, mark_reported, prune, update, closed_by, told_at, limit_or, untold,
  unreported, is_none,
}

-- The ids descend from below `n`.
abbrev pub Below : ℕ → List Row → Type 0
Below n [] = Unit
Below n (x ∷ xs) = (x.run.id < n) × Below x.run.id xs

abbrev pub IsHistory : History → Type 0
IsHistory h = Below h.next_id h.rows

pub data Call : Type 0 where
  create_call : Bool → Run → Call
  finish_call : Bool → Run → Call
  mark_call : Bool → ℕ → Time → Call
  prune_call : Bool → ℤ → Call

unfoldable pub step : Call → History → History
step (create_call fails r) h = (create fails r h).0
step (finish_call fails r) h = (finish fails r h).0
step (mark_call fails id at) h = (mark_reported fails id at h).0
step (prune_call fails keep) h = (prune fails keep h).0

unfoldable pub run_calls : List Call → History → History
run_calls [] h = h
run_calls (c ∷ cs) h = run_calls cs (step c h)

Below-weaken : (n m : ℕ) (xs : List Row) → Below n xs → n ≤ m → Below m xs
Below-weaken n m [] b h = tt
Below-weaken n m (x ∷ xs) b h = (omega (arith, b.0), b.1)

Below-take : (n k : ℕ) (xs : List Row) → Below n xs → Below n (take k xs)
Below-take n zero xs b = tt
Below-take n (suc k) [] b = tt
Below-take n (suc k) (x ∷ xs) b = (b.0, Below-take x.run.id k xs b.1)

Below-update :
    (n id : ℕ) (change : Row → Row)
    → ((x : Row) → (change x).run.id ≡ x.run.id)
    → (xs : List Row) → Below n xs
    → Below n (update id change xs)
unfolding update
Below-update n id change k [] b = tt
Below-update n id change k (x ∷ xs) b = elim (Bool-cases (x.run.id == id)) [
  | inl e ↦ rw e (rw (k x) b.0, rw (k x) (Below-update x.run.id id change k xs b.1))
  | inr e ↦ rw e (b.0, Below-update x.run.id id change k xs b.1)
]

finish-IsHistory :
    (fails : Bool) (r : Run) (h : History) → IsHistory h → IsHistory (finish fails r h).0
unfolding finish
finish-IsHistory true r h i = i
finish-IsHistory false r h i = Below-update h.next_id r.id (closed_by r) (λ x. refl) h.rows i

mark_reported-IsHistory :
    (fails : Bool) (id : ℕ) (at : Time) (h : History)
    → IsHistory h
    → IsHistory (mark_reported fails id at h).0
unfolding mark_reported
mark_reported-IsHistory true id at h i = i
mark_reported-IsHistory false id at h i =
    Below-update h.next_id id (told_at at) (λ x. refl) h.rows i

prune-IsHistory :
    (fails : Bool) (keep : ℤ) (h : History) → IsHistory h → IsHistory (prune fails keep h).0
unfolding prune
prune-IsHistory true keep h i = elim (Bool-cases (leb_ℤ keep (pos 0))) [
  | inl e ↦ rw e i
  | inr e ↦ rw e i
]
prune-IsHistory false keep h i = elim (Bool-cases (leb_ℤ keep (pos 0))) [
  | inl e ↦ rw e i
  | inr e ↦ rw e (Below-take h.next_id (limit_or 0 keep) h.rows i)
]

step-IsHistory : (c : Call) (h : History) → IsHistory h → IsHistory (step c h)
unfolding step
step-IsHistory (create_call true r) h i = i
step-IsHistory (create_call false r) h i = (omega arith, i)
step-IsHistory (finish_call fails r) h i = finish-IsHistory fails r h i
step-IsHistory (mark_call fails id at) h i = mark_reported-IsHistory fails id at h i
step-IsHistory (prune_call fails keep) h i = prune-IsHistory fails keep h i

-- Whatever calls a history gets, and whichever of them fail: if its rows had distinct ids in
-- descending order, all below the id that the next run gets, they still do.
pub calls-IsHistory : (cs : List Call) (h : History) → IsHistory h → IsHistory (run_calls cs h)
unfolding run_calls
calls-IsHistory [] h i = i
calls-IsHistory (c ∷ cs) h i = calls-IsHistory cs (step c h) (step-IsHistory c h i)

-- Only the row with the id is changed, and there is at most one.
pub update-Below :
    (n : ℕ) (change : Row → Row) (xs : List Row) → Below n xs → update n change xs ≡ xs
unfolding update
update-Below n change [] b = refl
update-Below n change (x ∷ xs) b = elim (Bool-cases (x.run.id == n)) [
  | inl e ↦ absurd (ground arith)
  | inr e ↦
      rw e (
        ap (λ ys. x ∷ ys)
          (update-Below n change xs (Below-weaken x.run.id n xs b.1 (ground arith))))
]

All-take : (P : Run → Type 0) (k : ℕ) (rs : List Run) → All P rs → All P (take k rs)
All-take P zero rs a = tt
All-take P (suc k) [] a = tt
All-take P (suc k) (r ∷ rs) a = (a.0, All-take P k rs a.1)

pub All-reverse : (P : Run → Type 0) (rs : List Run) → All P rs → All P (reverse rs)
All-reverse P [] a = tt
All-reverse P (r ∷ rs) a =
    rw reverse-cons (All-append P (reverse rs) (r ∷ []) (All-reverse P rs a.1) (a.0, tt))

untold-update :
    (id : ℕ) (at : Time) (xs : List Row) → All (λ r. r.id ≢ id) (untold (update id (told_at at) xs))
unfolding untold update
untold-update id at [] = tt
untold-update id at (x ∷ xs) = elim (Bool-cases (x.run.id == id)) [
  | inl e ↦ rw e (untold-update id at xs)
  | inr e ↦ rw e (elim (Bool-cases (is_none x.run.reported_at && x.closed)) [
    | inl u ↦ rw u ((λ k. ground arith), untold-update id at xs)
    | inr u ↦ rw u (untold-update id at xs)
  ])
]

-- Once a run was marked as reported, the runs that are still to be reported have none with its
-- id, whatever the limit they are read with.
pub told_once :
    (id : ℕ) (at : Time) (h : History) (limit : ℤ)
    → All (λ r. r.id ≢ id) (unreported limit (mark_reported false id at h).0)
unfolding unreported mark_reported
told_once id at h limit =
    All-take (λ r. r.id ≢ id) (limit_or 50 limit) (reverse (untold (update id (told_at at) h.rows)))
      (All-reverse (λ r. r.id ≢ id) (untold (update id (told_at at) h.rows))
        (untold-update id at h.rows))
