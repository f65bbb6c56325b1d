-- ===== src/Restic/Messages/Counts.antt =====
-- foundation/restic/backup.go: how many errors a backup is said to have, and how many are kept.
use sion_backup.Prelude.{
  ℕ, suc, ◌+◌, ◌≤◌, ◌≡◌, ◌<◌, ◌⊎◌, refl, ap, sym, subst, min, arith, Bool, true, false, List, [],
  ◌∷◌, ◌++◌, length, length-append,
}
use sion_backup.Prelude.Text.{Text}
use sion_backup.Restic.{Summary, no_summary}
use sion_backup.Restic.Messages.{
  Line, unreadable, status, other_message, bad_summary, error_line, summary_line, max_errors_kept,
  keep_error, parse_from, parse_backup, with_errors, merge_errors, both_streams,
}

-- The error lines of a stream.
abbrev pub error_lines : List Line → ℕ
error_lines [] = 0
error_lines (error_line item sentence ∷ ls) = suc (error_lines ls)
error_lines (unreadable ∷ ls) = error_lines ls
error_lines (status ∷ ls) = error_lines ls
error_lines (other_message ∷ ls) = error_lines ls
error_lines (bad_summary ∷ ls) = error_lines ls
error_lines (summary_line got ∷ ls) = error_lines ls

-- The snapshot of the last summary in a stream, after those before it.
abbrev pub last_snapshot : Text → List Line → Text
last_snapshot id [] = id
last_snapshot id (summary_line got ∷ ls) = last_snapshot got.snapshot_id ls
last_snapshot id (error_line item sentence ∷ ls) = last_snapshot id ls
last_snapshot id (unreadable ∷ ls) = last_snapshot id ls
last_snapshot id (status ∷ ls) = last_snapshot id ls
last_snapshot id (other_message ∷ ls) = last_snapshot id ls
last_snapshot id (bad_summary ∷ ls) = last_snapshot id ls

-- What a stream read to its end has put into the summary.
abbrev pub Parsed : List Line → ℕ → Summary → Summary → Type 0
Parsed ls errors s r =
    (r.error_count ≡ errors + error_lines ls)
    × (r.snapshot_id ≡ last_snapshot s.snapshot_id ls)
    × (length r.errors ≡ min max_errors_kept (length s.errors + error_lines ls))

length-keep_error :
    (item sentence : Text) (s : Summary)
    → length (keep_error item sentence s).errors ≡ min max_errors_kept (suc (length s.errors))
      ⊎ (max_errors_kept < length s.errors)
length-keep_error item sentence s = ground (arith, length-append s.errors ((item, sentence) ∷ []))

snapshot-keep_error :
    (item sentence : Text) (s : Summary) → (keep_error item sentence s).snapshot_id ≡ s.snapshot_id
snapshot-keep_error item sentence s = ground arith

Parsed-error_line :
    (item sentence : Text) (ls : List Line) (errors : ℕ) (s r : Summary)
    → length s.errors ≤ max_errors_kept
    → Parsed ls (suc errors) (keep_error item sentence s) r
    → Parsed (error_line item sentence ∷ ls) errors s r
Parsed-error_line item sentence ls errors s r h (c, i, n) = (
  omega (arith, c),
  rw (sym (snapshot-keep_error item sentence s)) i,
  ground (arith, n, length-keep_error item sentence s),
)

kept-keep_error :
    (item sentence : Text) (s : Summary)
    → length s.errors ≤ max_errors_kept
    → length (keep_error item sentence s).errors ≤ max_errors_kept
kept-keep_error item sentence s h = ground (arith, length-keep_error item sentence s)

parse_from-Parsed :
    (ls : List Line) (broken : Bool) (errors : ℕ) (s r : Summary)
    → length s.errors ≤ max_errors_kept
    → parse_from ls broken errors s ≡ (r, true)
    → Parsed ls errors s r
unfolding parse_from
parse_from-Parsed [] true errors s r h e = absurd (ground arith)
parse_from-Parsed [] false errors s r h e =
    subst (λ x. Parsed [] errors s x) (ap (λ x. x.0) e) (omega arith, refl, omega arith)
parse_from-Parsed (error_line item sentence ∷ ls) broken errors s r h e =
    Parsed-error_line item sentence ls errors s r h (
      parse_from-Parsed ls broken (suc errors) (keep_error item sentence s) r
        (kept-keep_error item sentence s h) e)
parse_from-Parsed (summary_line got ∷ ls) broken errors s r h e =
    parse_from-Parsed ls broken errors (record got { errors = s.errors; error_count = 0 }) r h e
parse_from-Parsed (bad_summary ∷ ls) broken errors s r h e = absurd (ground arith)
parse_from-Parsed (unreadable ∷ ls) broken errors s r h e =
    parse_from-Parsed ls broken errors s r h e
parse_from-Parsed (status ∷ ls) broken errors s r h e = parse_from-Parsed ls broken errors s r h e
parse_from-Parsed (other_message ∷ ls) broken errors s r h e =
    parse_from-Parsed ls broken errors s r h e

length-with_errors :
    (kept es : List (Text × Text))
    → length kept ≤ max_errors_kept
    → length (with_errors kept es) ≡ min max_errors_kept (length kept + length es)
unfolding with_errors
length-with_errors kept [] h = omega arith
length-with_errors kept (e ∷ es) h =
    ground (arith, length-append kept (e ∷ []), length-with_errors (kept ++ e ∷ []) es)

both_read :
    (out err : List Line) (a b : Summary)
    → Parsed out 0 no_summary a
    → Parsed err 0 no_summary b
    → ((merge_errors a b).error_count ≡ error_lines out + error_lines err)
      × ((merge_errors a b).snapshot_id ≡ last_snapshot [] out)
      × (length (merge_errors a b).errors ≡ min max_errors_kept (error_lines out + error_lines err))
unfolding merge_errors
both_read out err a b (c, i, n) (d, j, m) =
    (omega (arith, c, d), i, omega (arith, n, m, length-with_errors a.errors b.errors))

-- Where both streams of a backup are read to their ends: the count of unreadable files is the number
-- of error lines in the two, as many of them are named, or a hundred where there are more, and the
-- snapshot is the one of the last summary, whatever other lines there are.
pub both_streams-counts :
    (out err : List Line) (a b : Summary)
    → parse_backup out false ≡ (a, true)
    → parse_backup err false ≡ (b, true)
    → let s = (both_streams out false err false).0 in
      (s.error_count ≡ error_lines out + error_lines err)
      × (s.snapshot_id ≡ last_snapshot [] out)
      × (length s.errors ≡ min max_errors_kept (error_lines out + error_lines err))
unfolding both_streams parse_backup
both_streams-counts out err a b e d =
    simp (e, d)
      (both_read out err a b (parse_from-Parsed out false 0 no_summary a (omega arith) e)
        (parse_from-Parsed err false 0 no_summary b (omega arith) d))
